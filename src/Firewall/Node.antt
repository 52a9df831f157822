-- ===== src/Firewall/Node.antt =====
-- What the code relies on of the hypervisor's per-VM firewall (Proxmox VE), as the comments of
-- api/internal/compute/firewall.go and api/internal/proxmox/firewall.go document it.
use shake_cloud.Prelude.{ℕ, zero, suc, ◌≡◌, ◌⊎◌, Option, none, some, List, [], ◌∷◌, map}
use shake_cloud.Result.{Err}
use shake_cloud.Firewall.Rule.{FirewallRule}

-- A rule as it is sent: the position is not.
abbrev pub bare : FirewallRule → FirewallRule
bare r = record r { pos = 0 }

abbrev pub remove_at {ℓ} : {A : Type ℓ} → ℕ → List A → List A
remove_at n [] = []
remove_at zero (x ∷ xs) = xs
remove_at (suc n) (x ∷ xs) = x ∷ remove_at n xs

-- The rules carry their positions, counted from `n`.
abbrev pub Numbered : ℕ → List FirewallRule → Type 0
Numbered n [] = Unit
Numbered n (r ∷ rules) = (r.pos ≡ n) × Numbered (suc n) rules

-- One VM's firewall on the node. A call answers an error or none, with the state that it leaves.
pub record Node : Type 1 where
  pub State : Type 0
  pub rules : State → List FirewallRule
  pub insert_rule : FirewallRule → State → Option Err × State
  pub delete_rule : ℕ → State → Option Err × State
  -- The rules are listed in the order of their positions 0, 1, ….
  pub numbered : (s : State) → Numbered 0 (rules s)
  -- An inserted rule lands at the top.
  pub insert_top :
      (r : FirewallRule) (s : State)
      → (insert_rule r s).0 ≡ none
      → map bare (rules (insert_rule r s).1) ≡ bare r ∷ map bare (rules s)
  -- A call that is answered with an error, or not in time, has had its effect or none.
  pub insert_fails :
      (r : FirewallRule) (s : State) (e : Err)
      → (insert_rule r s).0 ≡ some e
      → (map bare (rules (insert_rule r s).1) ≡ map bare (rules s))
        ⊎ (map bare (rules (insert_rule r s).1) ≡ bare r ∷ map bare (rules s))
  -- A deletion takes out the rule at the position.
  pub delete_at :
      (n : ℕ) (s : State)
      → (delete_rule n s).0 ≡ none
      → map bare (rules (delete_rule n s).1) ≡ remove_at n (map bare (rules s))
  pub delete_fails :
      (n : ℕ) (s : State) (e : Err)
      → (delete_rule n s).0 ≡ some e
      → (map bare (rules (delete_rule n s).1) ≡ map bare (rules s))
        ⊎ (map bare (rules (delete_rule n s).1) ≡ remove_at n (map bare (rules s)))
