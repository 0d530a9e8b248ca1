-- ===== src/Base/Effects.antt =====
-- Actions on the world outside the program: an action returns a result or an error, and the new
-- world. `>>=` is the idiom `if err != nil { return err }`: what was done before the error stays done.
use mathlib.Core.List.{List, [], ◌∷◌}
use airgap_snapshots.Base.Errors.{Failure, Result, ok, err}

abbrev pub M : Type 0 → Type 0 → Type 0
M W A = W → Result A × W

abbrev pub pure : {W A : Type 0} → A → M W A
pure a w = (ok a, w)

abbrev pub fail : {W A : Type 0} → Failure → M W A
fail e w = (err e, w)

abbrev pub lift : {W A : Type 0} → Result A → M W A
lift r w = (r, w)

abbrev pub bind_result : {W A B : Type 0} → (A → M W B) → Result A → W → Result B × W
bind_result f (ok a) w = f a w
bind_result f (err e) w = (err e, w)

infixl 5 ◌>>=◌ ◌>>◌
abbrev pub ◌>>=◌ : {W A B : Type 0} → M W A → (A → M W B) → M W B
◌>>=◌ m f w = bind_result f (m w).0 (m w).1

abbrev pub ◌>>◌ : {W B : Type 0} → M W (Unit {0}) → M W B → M W B
m >> k = m >>= λ _. k

-- The pair `x, err := f()` itself, for code that goes on after an error.
abbrev pub attempt : {W A : Type 0} → M W A → M W (Result A)
attempt m w = let (r, w') = m w in (ok r, w')

abbrev map_failure : {A : Type 0} → (Failure → Failure) → Result A → Result A
map_failure f (ok a) = ok a
map_failure f (err e) = err (f e)

-- `if err != nil { return fmt.Errorf("...: %w", ..., err) }`
abbrev pub with_context : {W A : Type 0} → (Failure → Failure) → M W A → M W A
with_context f m w = (map_failure f (m w).0, (m w).1)

abbrev pub recover_result : {W A B : Type 0} → (Failure → M W B) → (A → M W B) → Result A → M W B
recover_result h k (ok a) w = k a w
recover_result h k (err e) w = h e w

-- `x, err := m; if err != nil { return h(err) }` in a function that goes on with `k` of `x`.
abbrev pub recover : {W A B : Type 0} → (Failure → M W B) → M W A → (A → M W B) → M W B
recover h m k w = recover_result h k (m w).0 (m w).1

-- `defer f()`: the clean-up runs whatever the action did, and its error is dropped.
abbrev pub finally : {W A : Type 0} → M W A → M W (Unit {0}) → M W A
finally m cleanup w = ((m w).0, (cleanup (m w).1).1)

abbrev pub clean_result : {W A : Type 0} → M W (Unit {0}) → Result A → W → Result A × W
clean_result cleanup (ok a) w = (ok a, w)
clean_result cleanup (err e) w = (err e, (cleanup w).1)

-- `if err != nil { f(); return err }`: the clean-up runs after an error only, and its own is dropped.
abbrev pub on_failure : {W A : Type 0} → M W A → M W (Unit {0}) → M W A
on_failure m cleanup w = clean_result cleanup (m w).0 (m w).1

-- The elements in order, stopping at the first error.
abbrev pub map_m : {W A B : Type 0} → (A → M W B) → List A → M W (List B)
map_m f [] = pure []
map_m f (x ∷ xs) = f x >>= λ y. map_m f xs >>= λ ys. pure (y ∷ ys)
