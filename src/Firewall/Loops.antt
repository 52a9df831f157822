-- ===== src/Firewall/Loops.antt =====
-- The two loops of Service.replaceRules (api/internal/compute/firewall.go), call by call.
use mathlib.Core.List.{map-append}
use shake_cloud.Prelude.{
  ℕ, suc, ◌+◌, ◌≡◌, ◌⊎◌, inl, inr, refl, sym, ap, ◌∙◌, subst, true, false, none, some, List, [],
  ◌∷◌, ◌++◌, map, reverse, append-nil, append_assoc, length, length-append, arith, Option-cases,
}
use shake_cloud.Result.{Err}
use shake_cloud.Firewall.Rule.{FirewallRule}
use shake_cloud.Firewall.Node.{Node, bare, remove_at, Numbered}
use shake_cloud.Firewall.Replace.{same_rules, insert_all, delete_all, replace_rules}

remove_at-append {ℓ} :
    {A : Type ℓ} (xs : List A) (y : A) (zs : List A)
    → remove_at (length xs) (xs ++ y ∷ zs) ≡ xs ++ zs
remove_at-append [] y zs = refl
remove_at-append (x ∷ xs) y zs = ap (λ t. x ∷ t) (remove_at-append xs y zs)

reverse-append {ℓ} : {A : Type ℓ} (xs : List A) (y : A) → reverse (xs ++ y ∷ []) ≡ y ∷ reverse xs
reverse-append [] y = refl
reverse-append (x ∷ xs) y = ap (λ t. t ++ x ∷ []) (reverse-append xs y)

length-map-bare : (xs : List FirewallRule) → length (map bare xs) ≡ length xs
length-map-bare [] = refl
length-map-bare (x ∷ xs) = ap suc (length-map-bare xs)

length-reverse : (xs : List FirewallRule) → length (reverse xs) ≡ length xs
length-reverse [] = refl
length-reverse (x ∷ xs) = omega (arith, length-append {0} (reverse xs) (x ∷ []), length-reverse xs)

pub reverse-reverse {ℓ} : {A : Type ℓ} (xs : List A) → reverse (reverse xs) ≡ xs
reverse-reverse [] = refl
reverse-reverse (x ∷ xs) = reverse-append (reverse xs) x ∙ ap (λ t. x ∷ t) (reverse-reverse xs)

-- The positions of a list of rules that is read from the last to the first.
abbrev pub CountsDown : List FirewallRule → Type 0
CountsDown [] = Unit
CountsDown (r ∷ rest) = (r.pos ≡ length rest) × CountsDown rest

CountsDown-append :
    (n : ℕ) (xs ys : List FirewallRule)
    → length ys ≡ n
    → CountsDown ys
    → Numbered n xs
    → CountsDown (reverse xs ++ ys)
CountsDown-append n [] ys e h k = h
CountsDown-append n (x ∷ xs) ys e h k =
    subst CountsDown (sym (append_assoc (reverse xs) (x ∷ []) ys))
      (CountsDown-append (suc n) xs (x ∷ ys) (omega arith) (omega arith, h) k.1)

pub CountsDown-reverse : (xs : List FirewallRule) → Numbered 0 xs → CountsDown (reverse xs)
CountsDown-reverse xs h =
    subst CountsDown (append-nil (reverse xs)) (CountsDown-append 0 xs [] refl tt h)

remove_last :
    (new old : List FirewallRule) (r : FirewallRule)
    → r.pos ≡ length old
    → remove_at (length new + r.pos) (new ++ map bare (reverse (r ∷ old)))
      ≡ new ++ map bare (reverse old)
remove_last new old r e =
    let xs = new ++ map bare (reverse old) in
    let at : length new + r.pos ≡ length xs = omega (
      arith,
      length-append {0} new (map bare (reverse old)),
      length-map-bare (reverse old),
      length-reverse old,
    ) in
    let split : new ++ map bare (reverse (r ∷ old)) ≡ xs ++ bare r ∷ [] =
      simp (map-append, append_assoc) in
    rw at (ap (remove_at (length xs)) split ∙ remove_at-append xs (bare r) [] ∙ append-nil xs)

module _ (node : Node) where
  open node use {
    State, rules, insert_rule, delete_rule, numbered, insert_top, insert_fails, delete_at,
    delete_fails,
  }

  insert_all-ok :
      (r : FirewallRule) (rest : List FirewallRule) (s : State)
      → (insert_rule r s).0 ≡ none
      → insert_all node (r ∷ rest) s ≡ insert_all node rest (insert_rule r s).1
  unfolding insert_all
  insert_all-ok r rest s p = rw (p, insert_all)

  insert_all-stops :
      (r : FirewallRule) (rest : List FirewallRule) (s : State) {e : Err}
      → (insert_rule r s).0 ≡ some e
      → insert_all node (r ∷ rest) s ≡ (some e, (insert_rule r s).1)
  unfolding insert_all
  insert_all-stops r rest s p = rw (p, insert_all)

  delete_all-ok :
      (offset : ℕ) (r : FirewallRule) (rest : List FirewallRule) (s : State)
      → (delete_rule (offset + r.pos) s).0 ≡ none
      → delete_all node offset (r ∷ rest) s
        ≡ delete_all node offset rest (delete_rule (offset + r.pos) s).1
  unfolding delete_all
  delete_all-ok offset r rest s p = rw (p, delete_all)

  delete_all-stops :
      (offset : ℕ) (r : FirewallRule) (rest : List FirewallRule) (s : State) {e : Err}
      → (delete_rule (offset + r.pos) s).0 ≡ some e
      → delete_all node offset (r ∷ rest) s ≡ (some e, (delete_rule (offset + r.pos) s).1)
  unfolding delete_all
  delete_all-stops offset r rest s p = rw (p, delete_all)

  -- An insertion that failed left the rules, or put the one rule above them.
  insert_failed :
      (r : FirewallRule) (rest : List FirewallRule) (s : State)
      → ((map bare (rules (insert_rule r s).1) ≡ map bare (rules s))
          ⊎ (map bare (rules (insert_rule r s).1) ≡ bare r ∷ map bare (rules s)))
      → (front back : List FirewallRule) × (map bare (reverse (r ∷ rest)) ≡ front ++ back)
        × (map bare (rules (insert_rule r s).1) ≡ back ++ map bare (rules s))
  insert_failed r rest s (inl e) = (map bare (reverse (r ∷ rest)), [], sym (append-nil _), e)
  insert_failed r rest s (inr e) = (map bare (reverse rest), bare r ∷ [], simp map-append, e)

  -- The rules after the insertions: all of `rest`, or its last ones when a call failed.
  pub insert_all-rules :
      (rest : List FirewallRule) (s : State)
      → (front back : List FirewallRule) × (map bare (reverse rest) ≡ front ++ back)
        × (map bare (rules (insert_all node rest s).1) ≡ back ++ map bare (rules s))
        × ((insert_all node rest s).0 ≡ none → front ≡ [])
  insert_all-rules [] s = unfold insert_all in ([], [], refl, refl, λ h. refl)
  insert_all-rules (r ∷ rest) s = elim (Option-cases (insert_rule r s).0) [
    | inr (e, p) ↦
        let stop = insert_all-stops r rest s p in
        let (front, back, split, after) = insert_failed r rest s (insert_fails r s e p) in
        (front, back, split, rw stop after, λ h. cc (rw stop at h))
    | inl p ↦
        let (front, back, split, after, whole) = insert_all-rules rest (insert_rule r s).1 in
        let step = insert_all-ok r rest s p in
        (
          front,
          back ++ bare r ∷ [],
          simp (map-append, split, append_assoc),
          rw step (after ∙ simp (insert_top r s p, append_assoc)),
          λ h. whole (rw step at h),
        )
  ]

  -- A deletion that failed left the rules, or took out the last old one.
  delete_failed :
      (new old : List FirewallRule) (r : FirewallRule) (s : State)
      → r.pos ≡ length old
      → map bare (rules s) ≡ new ++ map bare (reverse (r ∷ old))
      → ((map bare (rules (delete_rule (length new + r.pos) s).1) ≡ map bare (rules s))
          ⊎ (map bare (rules (delete_rule (length new + r.pos) s).1)
              ≡ remove_at (length new + r.pos) (map bare (rules s))))
      → (front back : List FirewallRule) × (map bare (reverse (r ∷ old)) ≡ front ++ back)
        × (map bare (rules (delete_rule (length new + r.pos) s).1) ≡ new ++ front)
  delete_failed new old r s c e (inl h) =
      (map bare (reverse (r ∷ old)), [], sym (append-nil _), h ∙ e)
  delete_failed new old r s c e (inr h) = (
    map bare (reverse old),
    bare r ∷ [],
    simp map-append,
    h ∙ ap (remove_at (length new + r.pos)) e ∙ remove_last new old r c,
  )

  -- The rules after the deletions: the new ones alone, or with the first old ones below them.
  pub delete_all-rules :
      (new old : List FirewallRule) (s : State)
      → CountsDown old
      → map bare (rules s) ≡ new ++ map bare (reverse old)
      → (front back : List FirewallRule) × (map bare (reverse old) ≡ front ++ back)
        × (map bare (rules (delete_all node (length new) old s).1) ≡ new ++ front)
        × ((delete_all node (length new) old s).0 ≡ none → front ≡ [])
  delete_all-rules new [] s c e = unfold delete_all in ([], [], refl, e, λ h. refl)
  delete_all-rules new (r ∷ old) s c e =
      elim (Option-cases (delete_rule (length new + r.pos) s).0) [
        | inr (x, p) ↦
            let stop = delete_all-stops (length new) r old s p in
            let (front, back, split, after) =
              delete_failed new old r s c.0 e (delete_fails (length new + r.pos) s x p) in
            (front, back, split, rw stop after, λ h. cc (rw stop at h))
        | inl p ↦
            let step = delete_all-ok (length new) r old s p in
            let gone = delete_at (length new + r.pos) s p in
            let (front, back, split, after, whole) =
              delete_all-rules new old (delete_rule (length new + r.pos) s).1 c.1
                (gone ∙ ap (remove_at (length new + r.pos)) e ∙ remove_last new old r c.0) in
            (
              front,
              back ++ bare r ∷ [],
              simp (map-append, split, append_assoc),
              rw step after,
              λ h. whole (rw step at h),
            )
      ]

  pub replace_rules-same :
      (current desired : List FirewallRule) (s : State)
      → same_rules current desired ≡ true
      → replace_rules node current desired s ≡ (none, s)
  unfolding replace_rules
  replace_rules-same current desired s h = rw h

  pub replace_rules-stops :
      (current desired : List FirewallRule) (s : State) {e : Err}
      → same_rules current desired ≡ false
      → (insert_all node (reverse desired) s).0 ≡ some e
      → replace_rules node current desired s ≡ (some e, (insert_all node (reverse desired) s).1)
  unfolding replace_rules
  replace_rules-stops current desired s h p = rw (h, p, replace_rules)

  pub replace_rules-deletes :
      (current desired : List FirewallRule) (s : State)
      → same_rules current desired ≡ false
      → (insert_all node (reverse desired) s).0 ≡ none
      → replace_rules node current desired s
        ≡ delete_all node (length desired) (reverse current) (insert_all node (reverse desired) s).1
  unfolding replace_rules
  replace_rules-deletes current desired s h p = rw (h, p, replace_rules)
