-- ===== src/Database/Erasing.antt =====
-- The loop of `delete_user` over the chats of the user.
use chat.Common.{
  ◌≡◌, refl, subst, done_inj, ◌∙◌, true, false, ◌&&◌, some, List, [], ◌∷◌, arith, Str, str_eq,
  str_eq_iff, str_Key, nat_Key, if◌then◌else◌, lookup, modify, is_some, contains, contains-cons,
  lookup-modify, Option-cases, Bool-cases, inl, inr, done, halt, dangling_iterator,
}
use chat.Database.{User, erase_chat, erase_chats}
use chat.Database.View.{texts_of, has, in_user, has-erase_chat, texts_of-erase_chat}

-- What the loop over the chats `cs` leaves of the users.
pub record Erased (me : Str) (cs : List Str) (us us' : List (Str × User)) : Type 0 where
  pub users : (o : Str) → is_some (lookup o us') ≡ is_some (lookup o us)
  pub names :
      (o : Str) (u' : User)
      → lookup o us' ≡ some u'
      → (u : User) × (lookup o us ≡ some u) × (u'.username_ ≡ u.username_)
  pub chats :
      (o x : Str)
      → in_user false (λ u. has u x) (lookup o us') ≡ (
          if contains o cs && str_eq me x
          then false
          else in_user false (λ u. has u x) (lookup o us))
  pub texts :
      (o x : Str)
      → in_user [] (λ u. texts_of u x) (lookup o us') ≡ (
          if contains o cs && str_eq me x then [] else in_user [] (λ u. texts_of u x) (lookup o us))

module _ (me : Str) where
  erase_one :
      (c : Str) (us : List (Str × User)) → Erased me (c ∷ []) us (modify c (erase_chat me) us)
  unfolding contains erase_chat
  erase_one c us = record {
    users = λ o. ground (arith, lookup-modify c o (erase_chat me) us, str_eq_iff c o);
    names = λ o u' e. elim (Option-cases (lookup o us)) [
      | inl n ↦ absurd (ground (arith, lookup-modify c o (erase_chat me) us, str_eq_iff c o))
      | inr (u, s) ↦ (u, s, ground (arith, lookup-modify c o (erase_chat me) us, str_eq_iff c o))
    ];
    chats = λ o x. elim (Option-cases (lookup o us)) [
      | inl n ↦ ground (arith, lookup-modify c o (erase_chat me) us, str_eq_iff c o)
      | inr (u, s) ↦
          ground
            (arith, lookup-modify c o (erase_chat me) us, str_eq_iff c o, has-erase_chat me x u)
    ];
    texts = λ o x. elim (Option-cases (lookup o us)) [
      | inl n ↦ ground (arith, lookup-modify c o (erase_chat me) us, str_eq_iff c o)
      | inr (u, s) ↦
          ground (
            arith,
            lookup-modify c o (erase_chat me) us,
            str_eq_iff c o,
            texts_of-erase_chat me x u,
          )
    ];
  }

  erase_more :
      (c : Str) (cs : List Str) (us us1 us' : List (Str × User))
      → Erased me (c ∷ []) us us1
      → Erased me cs us1 us'
      → Erased me (c ∷ cs) us us'
  unfolding contains
  erase_more c cs us us1 us' a b = record {
    users = λ o. b.users o ∙ a.users o;
    names = λ o u' e.
        let (u1, s1, n1) = b.names o u' e in let (u, s, n) = a.names o u1 s1 in (u, s, n1 ∙ n);
    chats = λ o x. ground (arith, a.chats o x, b.chats o x);
    texts = λ o x. ground (arith, a.texts o x, b.texts o x);
  }

  pub erase_chats-Erased :
      (cs : List Str) (us us' : List (Str × User))
      → erase_chats me cs us ≡ done us'
      → Erased me cs us us'
  unfolding erase_chats
  erase_chats-Erased [] us us' e = subst (Erased me [] us) (done_inj e) (record {
    users = λ o. refl;
    names = λ o u h. (u, h, refl);
    chats = λ o x. unfold contains in refl;
    texts = λ o x. unfold contains in refl;
  })
  erase_chats-Erased (c ∷ cs) us us' e =
      erase_more c cs us _ us' (erase_one c us) (erase_chats-Erased cs _ us' (ground arith))

  kept :
      (c : Str) (cs : List Str) (us : List (Str × User))
      → ((d : Str) → contains d (c ∷ cs) ≡ true → is_some (lookup d us) ≡ true)
      → (d : Str) → contains d cs ≡ true
      → is_some (lookup d (modify c (erase_chat me) us)) ≡ true
  kept c cs us there d k =
      ground
        (arith, there d, contains-cons d c cs, lookup-modify c d (erase_chat me) us, str_eq_iff c d)

  -- Without a chat with himself, and with every correspondent there, the loop ends.
  pub erase_chats_total :
      (cs : List Str) (us : List (Str × User))
      → contains me cs ≡ false
      → ((c : Str) → contains c cs ≡ true → is_some (lookup c us) ≡ true)
      → (us' : List (Str × User)) × (erase_chats me cs us ≡ done us')
  unfolding erase_chats
  erase_chats_total [] us h there = (us, refl)
  erase_chats_total (c ∷ cs) us h there =
      let (us', e) =
        erase_chats_total cs (modify c (erase_chat me) us) (ground (arith, contains-cons me c cs))
          (kept c cs us there) in
      (us', ground (arith, e, there c, contains-cons c c cs, contains-cons me c cs, str_eq_iff c c))

  -- With a chat with himself, the loop comes to it and goes on from an erased entry.
  pub erase_chats_dangling :
      (cs : List Str) (us : List (Str × User))
      → contains me cs ≡ true
      → ((c : Str) → contains c cs ≡ true → is_some (lookup c us) ≡ true)
      → erase_chats me cs us ≡ halt dangling_iterator
  unfolding erase_chats
  erase_chats_dangling [] us h there = unfold contains in cc
  erase_chats_dangling (c ∷ cs) us h there = elim (Bool-cases (str_eq c me)) [
    | inl himself ↦ ground (arith, there c, contains-cons c c cs, str_eq_iff c c)
    | inr other ↦ ground (
      arith,
      there c,
      contains-cons c c cs,
      str_eq_iff c c,
      erase_chats_dangling cs (modify c (erase_chat me) us) (ground (arith, contains-cons me c cs))
          (kept c cs us there),
    )
  ]
