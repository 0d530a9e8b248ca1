-- ===== src/Importer/Change.antt =====
-- How a part of an import pass may change what is observed of the world.
use mathlib.Core.Path.{subst}
use airgap_snapshots.Base.{
  ◌≡◌, refl, sym, ap, ◌∙◌, ◌⊎◌, inl, inr, true, false, Result, ok, err, M, bind_result, ◌>>=◌,
  Bool-cases, some,
}
use airgap_snapshots.Base.Integer.{ℤ}
use airgap_snapshots.Base.Text.{Text, text_eq, text_eq_iff}
use airgap_snapshots.Manifest.{FileEntry}
use airgap_snapshots.Importer.Laws.{Observed}
use airgap_snapshots.Importer.Effect.{Present, Verified, Effect}

module _ (sha256_hex : Text → Text) where
  -- The inbox is as before, and so is every object, up to objects that hold the verified content of
  -- an entry for which `P` holds.
  pub record Change (P : FileEntry → Type 0) (v v' : Observed) : Type 0 where
    pub landed : v'.landed ≡ v.landed
    pub every :
        (j : Text)
        → (v'.stored j ≡ v.stored j)
          ⊎ ((e : FileEntry) × P e × (e.key ≡ j) × Verified sha256_hex e v')

  pub Change-refl : (P : FileEntry → Type 0) {v v' : Observed} → v' ≡ v → Change P v v'
  Change-refl P h = record {
    landed = ap (λ (o : Observed). o.landed) h;
    every = λ j. inl (ap (λ (o : Observed). o.stored j) h);
  }

  pub Change-imp :
      (P Q : FileEntry → Type 0) {v v' : Observed}
      → ((e : FileEntry) → P e → Q e)
      → Change P v v'
      → Change Q v v'
  Change-imp P Q {v} {v'} f c = record { landed = c.landed; every = λ j. weaken j (c.every j) }
    where
      weaken :
          (j : Text)
          → (v'.stored j ≡ v.stored j)
            ⊎ ((e : FileEntry) × P e × (e.key ≡ j) × Verified sha256_hex e v')
          → (v'.stored j ≡ v.stored j)
            ⊎ ((e : FileEntry) × Q e × (e.key ≡ j) × Verified sha256_hex e v')
      weaken j (inl s) = inl s
      weaken j (inr (e, p, k, ver)) = inr (e, f e p, k, ver)

  pub Change-trans :
      (P : FileEntry → Type 0) {v u w : Observed} → Change P v u → Change P u w → Change P v w
  Change-trans P {v} {u} {w} a b = record {
    landed = b.landed ∙ a.landed;
    every = λ j. join j (a.every j) (b.every j);
  }
    where
      join :
          (j : Text)
          → (u.stored j ≡ v.stored j)
            ⊎ ((e : FileEntry) × P e × (e.key ≡ j) × Verified sha256_hex e u)
          → (w.stored j ≡ u.stored j)
            ⊎ ((e : FileEntry) × P e × (e.key ≡ j) × Verified sha256_hex e w)
          → (w.stored j ≡ v.stored j)
            ⊎ ((e : FileEntry) × P e × (e.key ≡ j) × Verified sha256_hex e w)
      join j _ (inr r) = inr r
      join j (inl s) (inl t) = inl (t ∙ s)
      join j (inr (e, p, k, (c, st, n, sum))) (inl t) =
          inr (e, p, k, (c, ap w.stored k ∙ t ∙ sym (ap u.stored k) ∙ st, n, sum))

  pub Effect-Change :
      (e : FileEntry) {v v' : Observed} → Effect sha256_hex e v v' → Change (λ e'. e' ≡ e) v v'
  Effect-Change e {v} {v'} f = record {
    landed = f.landed;
    every = λ j. at j (Bool-cases (text_eq j e.key));
  }
    where
      own :
          (j : Text)
          → j ≡ e.key
          → (v'.stored e.key ≡ v.stored e.key) ⊎ Verified sha256_hex e v'
          → (v'.stored j ≡ v.stored j)
            ⊎ ((e' : FileEntry) × (e' ≡ e) × (e'.key ≡ j) × Verified sha256_hex e' v')
      own j k (inl s) = inl (rw k s)
      own j k (inr ver) = inr (e, refl, sym k, ver)

      at :
          (j : Text)
          → (text_eq j e.key ≡ true) ⊎ (text_eq j e.key ≡ false)
          → (v'.stored j ≡ v.stored j)
            ⊎ ((e' : FileEntry) × (e' ≡ e) × (e'.key ≡ j) × Verified sha256_hex e' v')
      at j (inl y) = own j ((text_eq_iff j e.key).0 y) f.own
      at j (inr n) = inl (f.others j (λ k. cc ((text_eq_iff j e.key).1 k)))

  -- A present object stays present, if entries of one key have one size.
  pub Change-Present :
      (P : FileEntry → Type 0) (size_of : Text → ℤ) {v v' : Observed}
      → ((e : FileEntry) → P e → e.size ≡ size_of e.key)
      → Change P v v'
      → (e : FileEntry) → e.size ≡ size_of e.key
      → Present sha256_hex e v
      → Present sha256_hex e v'
  Change-Present P size_of {v} {v'} sized c e s (b, there, n) = keep (c.every e.key)
    where
      keep :
          (v'.stored e.key ≡ v.stored e.key)
            ⊎ ((e' : FileEntry) × P e' × (e'.key ≡ e.key) × Verified sha256_hex e' v')
          → Present sha256_hex e v'
      keep (inl same) = (b, same ∙ there, n)
      keep (inr (e', p, k, (b', there', n', _))) =
          (b', subst (λ j. v'.stored j ≡ some b') k there', n' ∙ sized e' p ∙ ap size_of k ∙ sym s)

  module _ {W : Type 0} (observe : W → Observed) (P : FileEntry → Type 0) where
    bind_result-Change :
        {A B : Type 0} (g : A → M W B) (r : Result A) (v : Observed) (w : W)
        → Change P v (observe w)
        → ((a : A) → r ≡ ok a → Change P v (observe (g a w).1))
        → Change P v (observe (bind_result g r w).1)
    bind_result-Change g (ok a) v w c h = h a refl
    bind_result-Change g (err e) v w c h = c

    pub bind-Change :
        {A B : Type 0} (m : M W A) (g : A → M W B) (w : W)
        → Change P (observe w) (observe (m w).1)
        → ((a : A) → (m w).0 ≡ ok a → Change P (observe (m w).1) (observe (g a (m w).1).1))
        → Change P (observe w) (observe ((m >>= g) w).1)
    bind-Change m g w c h =
        bind_result-Change g (m w).0 (observe w) (m w).1 c (λ a e. Change-trans P c (h a e))
