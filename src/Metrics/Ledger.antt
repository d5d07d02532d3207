-- ===== src/Metrics/Ledger.antt =====
-- What the metrics of src/metrics stand for: a ledger of the operations and the subscriptions that
-- are open, and of those that have ended.
use rubix_redis_bridge.Prelude.{
  ℕ, zero, suc, ◌+◌, ◌%◌, ◌≡◌, List, [], ◌∷◌, some, arith, get_elem?, if◌then◌else◌, word, list_eq,
  nat_eq,
}
use rubix_redis_bridge.Metrics.{Labels, Family, same_labels, inc, dec}

abbrev pub remove_at {ℓ} : {A : Type ℓ} → List A → ℕ → List A
remove_at [] i = []
remove_at (x ∷ xs) zero = xs
remove_at (x ∷ xs) (suc i) = x ∷ remove_at xs i

pub data Outcome : Type 0 where
  ok failed late cancelled : Outcome

unfoldable pub count : Labels → List Labels → ℕ
count labels [] = 0
count labels (x ∷ xs) =
    let rest = count labels xs in if same_labels labels x then suc rest else rest

-- A family counts the entries of a list, modulo the width of its words.
abbrev pub Counts : Family → List Labels → Type 0
Counts family entries = (labels : Labels) → family labels ≡ count labels entries % word

count-remove_at :
    (labels entry : Labels) (entries : List Labels) (i : ℕ)
    → get_elem? entries i ≡ some entry
    → count labels entries
      ≡ (count labels (remove_at entries i) + (if same_labels labels entry then 1 else 0))
unfolding count
count-remove_at labels entry [] i h = cc
count-remove_at labels entry (x ∷ xs) zero h = let same : x ≡ entry = cc in rw same (ground arith)
count-remove_at labels entry (x ∷ xs) (suc i) h =
    ground (arith, count-remove_at labels entry xs i h)

pub inc-Counts :
    (family : Family) (entries : List Labels) (entry : Labels)
    → Counts family entries
    → Counts (inc family entry) (entry ∷ entries)
unfolding inc count
inc-Counts family entries entry h labels = ground (arith, h labels)

pub dec-Counts :
    (family : Family) (entries : List Labels) (entry : Labels) (i : ℕ)
    → get_elem? entries i ≡ some entry
    → Counts family entries
    → Counts (dec family entry) (remove_at entries i)
unfolding dec
dec-Counts family entries entry i at h labels =
    ground (arith, h labels, count-remove_at labels entry entries i at)
