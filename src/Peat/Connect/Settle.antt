-- ===== src/Peat/Connect/Settle.antt =====
-- src/internal/peat/connect.go: when `WaitBundle` returns.
use airgap_snapshots.Base.{ℕ, zero, suc, ◌≡◌, true, false, List, ok, M, map_m}
use airgap_snapshots.Base.Text.{Text}
use airgap_snapshots.Peat.{Progress}
use airgap_snapshots.Peat.Connect.{Transport, Bundles, get_distribution, all_terminal}

module _ {W : Type 0} (transport : Transport W) (url : Text) (bundles : Bundles W)
    (ids : List Text) where
  abbrev poll_all : M W (List Progress)
  poll_all = map_m (get_distribution transport url) ids

  -- From the world `w`, this many rounds of polls are answered without all being terminal, and the
  -- next one with `progs`, which are.
  pub data SettlesIn : ℕ → W → List Progress → Type 0 where
    now :
        {w : W} {progs : List Progress}
        → (poll_all w).0 ≡ ok progs
        → all_terminal transport url bundles progs ≡ true
        → SettlesIn zero w progs
    later :
        {n : ℕ} {w : W} {seen progs : List Progress}
        → (poll_all w).0 ≡ ok seen
        → all_terminal transport url bundles seen ≡ false
        → SettlesIn n (poll_all w).1 progs
        → SettlesIn (suc n) w progs
