-- ===== src/Protocol.antt =====
-- include/chat262_protocol/chat262_protocol.h and src/chat262_protocol/chat262_protocol.cc. Each message
-- is a module with its `serialize` and its `deserialize`. Messages whose functions are copies of one
-- another share the text of a module of Layout.
pub mod Header
pub mod Lookup
pub mod Layout
pub mod Requests
pub mod Responses
pub mod RegistrationRequest
pub mod LoginRequest
pub mod SendTxtRequest
pub mod AccountsRequest
pub mod RecvTxtRequest
pub mod AccountsResponse
pub mod CorrespondentsResponse
pub mod RecvTxtResponse
pub mod RegistrationResponse
pub mod LoginResponse
pub mod LogoutResponse
pub mod SendTxtResponse
pub mod DeleteResponse
pub mod LogoutRequest
pub mod CorrespondentsRequest
pub mod DeleteRequest
pub mod InvalidTypeResponse
pub mod InvalidBodyResponse
pub mod WrongVersionResponse
