-- ===== src/Cleanup/Batch.antt =====
-- `DELETE ... WHERE ctid IN (SELECT ... WHERE test ORDER BY age LIMIT n)` of
-- backend/app/repositories/cleanup.py, and how many rows it returns. Among rows of one age the statement
-- may take any; here the first in the table goes first. A foreign key's `ON DELETE CASCADE` is the
-- caller's.
use self_relay.Base.{ℕ, ◌+◌, suc, zero, Bool, Option, none, some, [], ◌∷◌, leb, if◌then◌else◌}
use self_relay.Base.Dict.{Dict, erase}

module _ {R : Type 0} (test : R → Bool) (age : R → ℕ) where
  abbrev pub older : (k a : ℕ) → Option (ℕ × ℕ) → Option (ℕ × ℕ)
  older k a none = some (k, a)
  older k a (some (j, b)) = if leb a b then some (k, a) else some (j, b)

  -- The key and the age of the oldest candidate
  unfoldable pub oldest : Dict R → Option (ℕ × ℕ)
  oldest [] = none
  oldest ((k, r) ∷ d) = let rest = oldest d in if test r then older k (age r) rest else rest

  abbrev pub counted : ℕ × Dict R → ℕ × Dict R
  counted (n, d) = (n + 1, d)

  -- The oldest goes, and then the rest of the batch.
  abbrev pub after_first : Option (ℕ × ℕ) → (rest : ℕ → ℕ × Dict R) → Dict R → ℕ × Dict R
  after_first none rest d = (0, d)
  after_first (some (k, a)) rest d = counted (rest k)

  unfoldable pub delete_batch : (limit : ℕ) → Dict R → ℕ × Dict R
  unfolding oldest erase
  delete_batch zero d = (0, d)
  delete_batch (suc n) d = after_first (oldest d) (λ k. delete_batch n (erase k d)) d
