-- ===== src/Peat/Connect/Wait.antt =====
-- src/internal/peat/connect.go: the progress that `WaitBundle` returns.
use mathlib.Core.Path.{subst}
use airgap_snapshots.Base.{
  ℕ, zero, suc, ◌≡◌, refl, ap, Bool, true, false, List, [], ◌∷◌, map, arith, All, if◌then◌else◌,
  external, Result, ok, err, M, pure, fail, map_m,
}
use airgap_snapshots.Base.Keeps.{bind-eq-ok}
use airgap_snapshots.Base.Text.{Text}
use airgap_snapshots.Peat.{Progress, terminal}
use airgap_snapshots.Peat.Wire.{progress_of}
use airgap_snapshots.Peat.Connect.{
  Transport, Bundles, call_for, get_distribution, known, all_terminal, wait_rounds, wait_known,
  wait_bundle,
}

module _ {W : Type 0} (transport : Transport W) (url : Text) where
  -- An answer to a poll is about the distribution that was asked for.
  get_distribution-id :
      (id : Text) (w : W) (p : Progress)
      → (get_distribution transport url id w).0 ≡ ok p
      → p.distribution_id ≡ id
  unfolding get_distribution progress_of
  get_distribution-id id w p h =
      let (r, _, e, _) =
        bind-eq-ok (call_for transport url _ transport.decode_distribution _) _ w p h in
      cc (ap (λ (r : Result Progress). id_of r) e)
    where
      id_of : Result Progress → Text
      id_of (ok p) = p.distribution_id
      id_of (err _) = id

  poll-ids :
      (ids : List Text) (w : W) (progs : List Progress)
      → (map_m (get_distribution transport url) ids w).0 ≡ ok progs
      → map (λ (p : Progress). p.distribution_id) progs ≡ ids
  poll-ids [] w [] h = refl
  poll-ids [] w (p ∷ progs) h = cc h
  poll-ids (id ∷ ids) w progs h =
      let poll = get_distribution transport url in
      let (p, e, rest, _) = bind-eq-ok (poll id) _ w progs h in
      let (ps, es, out, _) = bind-eq-ok (map_m poll ids) _ (poll id w).1 progs rest in
      let same : p ∷ ps ≡ progs = cc out in
      subst (λ qs. map (λ (p : Progress). p.distribution_id) qs ≡ id ∷ ids) same
        (cc (get_distribution-id id w p e, poll-ids ids (poll id w).1 ps es))

  module _ (bundles : Bundles W) where
    all_terminal_lem :
        (progs : List Progress)
        → all_terminal transport url bundles progs ≡ true
        → All (λ (p : Progress). terminal p.status ≡ true) progs
    unfolding all_terminal
    all_terminal_lem [] h = tt
    all_terminal_lem (p ∷ progs) h = (ground arith, all_terminal_lem progs (ground arith))

    -- What holds of the progress of a bundle with these distributions.
    abbrev pub IsSettled : List Text → List Progress → Type 0
    IsSettled ids progs =
        (map (λ (p : Progress). p.distribution_id) progs ≡ ids)
        × All (λ (p : Progress). terminal p.status ≡ true) progs

    -- A round that ends the wait, and one that does not.
    settle :
        (b : Bool) (progs qs : List Progress) (later : M W (List Progress)) (w : W)
        (ids : List Text)
        → all_terminal transport url bundles progs ≡ b
        → map (λ (p : Progress). p.distribution_id) progs ≡ ids
        → ((later w).0 ≡ ok qs → IsSettled ids qs)
        → ((if b then pure progs else later) w).0 ≡ ok qs
        → IsSettled ids qs
    settle true progs qs later w ids b e ih h =
        let same : progs ≡ qs = cc h in subst (IsSettled ids) same (e, all_terminal_lem progs b)
    settle false progs qs later w ids b e ih h = ih h

    wait_rounds-IsSettled :
        (ticks : ℕ) (ids : List Text) (w : W) (progs : List Progress)
        → (wait_rounds transport url bundles ticks ids w).0 ≡ ok progs
        → IsSettled ids progs
    unfolding wait_rounds
    wait_rounds-IsSettled zero ids w progs h =
        let poll = map_m (get_distribution transport url) ids in
        let (ps, e, rest, _) = bind-eq-ok poll _ w progs h in
        settle (all_terminal transport url bundles ps) ps progs (fail (external "context canceled"))
          (poll w).1 ids refl (poll-ids ids w ps e) (λ k. cc k) rest
    wait_rounds-IsSettled (suc ticks) ids w progs h =
        let poll = map_m (get_distribution transport url) ids in
        let (ps, e, rest, _) = bind-eq-ok poll _ w progs h in
        settle (all_terminal transport url bundles ps) ps progs
          (wait_rounds transport url bundles ticks ids) (poll w).1 ids refl (poll-ids ids w ps e)
          (wait_rounds-IsSettled ticks ids (poll w).1 progs) rest

    -- The progress that `WaitBundle` returns without an error is one for each distribution that this
    -- client has recorded for the bundle, in that order, each in a terminal status.
    pub wait_bundle-IsSettled :
        (ticks : ℕ) (bundle_id : Text) (w : W) (progs : List Progress)
        → (wait_bundle transport url bundles ticks bundle_id w).0 ≡ ok progs
        → IsSettled (known transport url bundles bundle_id w) progs
    unfolding wait_bundle
    wait_bundle-IsSettled ticks bundle_id w progs h = go (known transport url bundles bundle_id w) h
      where
        go :
            (ids : List Text)
            → (wait_known transport url bundles ticks bundle_id ids w).0 ≡ ok progs
            → IsSettled ids progs
        go [] k = cc k
        go (id ∷ ids) k = wait_rounds-IsSettled ticks (id ∷ ids) w progs k
