-- ===== src/Staging/Paths.antt =====
-- src/internal/staging/outbox.go: the paths that `safeRelPath` accepts.
use airgap_snapshots.Base.{◌≡◌, inl, inr, false, List, [], ◌∷◌, ◌++◌, arith, ok, All, All-imp}
use mathlib.Core.Path.{subst}
use airgap_snapshots.Base.Text.{Text, text_eq, text_eq_refl}
use airgap_snapshots.Base.Text.Search.{
  has_prefix, has_prefix-append, split, join, Lacks, split-join,
}
use airgap_snapshots.Base.Text.FilePath.{slash, dot, dot_dot, clean, clean_parts}
use airgap_snapshots.Base.Text.CleanPath.{clean_parts-plain, IsPlain, Shape, cleaned, cleaned-Shape}
use airgap_snapshots.Staging.{safe_rel_path}

-- What the tests of `safeRelPath` say of the joined components.
abbrev Accepted : Text → Type 0
Accepted body =
    (text_eq body [] ≡ false)
    × (text_eq body dot_dot ≡ false)
    × (has_prefix body (dot_dot ++ slash ∷ []) ≡ false)
    × (text_eq body dot ≡ false)

IsPlain-of_Accepted :
    (parts : List Text) → Shape parts → Accepted (join parts slash) → All IsPlain parts
unfolding join
IsPlain-of_Accepted [] s a = tt
IsPlain-of_Accepted (p ∷ parts) (inr h) a = h
IsPlain-of_Accepted (p ∷ []) (inl (e, _)) (_, a, _, _) = cc (text_eq_refl dot_dot)
IsPlain-of_Accepted (p ∷ q ∷ parts) (inl (e, _)) (_, _, a, _) =
    cc (a, has_prefix-append (dot_dot ++ slash ∷ []) (join (q ∷ parts) slash))

-- An accepted key is relative, and its path is the join of the cleaned components.
Accepted-body :
    (key r : Text) → safe_rel_path key ≡ ok r → (r ≡ join (cleaned key) slash) × Accepted r
unfolding safe_rel_path clean
Accepted-body key r h = ground (arith, text_eq_refl dot)

split_plain :
    (parts : List Text)
    → All IsPlain parts
    → text_eq (join parts slash) [] ≡ false
    → split (join parts slash) slash ≡ parts
unfolding join text_eq
split_plain [] h a = cc
split_plain (p ∷ parts) h a =
    split-join p parts slash (All-imp IsPlain (Lacks slash) (p ∷ parts) (λ c v. v.no_slash) h)

-- The path of an accepted key has only plain components: none is empty, ".", ".." or has a slash.
pub safe_rel_path-IsPlain : (key r : Text) → safe_rel_path key ≡ ok r → All IsPlain (split r slash)
safe_rel_path-IsPlain key r h =
    let (e, a) = Accepted-body key r h in
    let a' : Accepted (join (cleaned key) slash) = subst Accepted e a in
    let plain = IsPlain-of_Accepted (cleaned key) (cleaned-Shape key) a' in
    rw (e, split_plain (cleaned key) plain a'.0) plain

unrooted :
    (p : Text) (parts : List Text)
    → text_eq p [] ≡ false
    → Lacks slash p
    → has_prefix (join (p ∷ parts) slash) (slash ∷ []) ≡ false
unfolding join has_prefix text_eq
unrooted [] parts e h = cc
unrooted (c ∷ p) [] e (h, _) = rw h
unrooted (c ∷ p) (q ∷ parts) e (h, _) = rw h

unrooted_plain :
    (parts : List Text)
    → All IsPlain parts
    → text_eq (join parts slash) [] ≡ false
    → has_prefix (join parts slash) (slash ∷ []) ≡ false
unrooted_plain [] h a = unfold join text_eq has_prefix in cc
unrooted_plain (p ∷ parts) (h, t) a = unrooted p parts h.not_empty h.no_slash

clean_accepted :
    (parts : List Text)
    → All IsPlain parts
    → text_eq (join parts slash) [] ≡ false
    → clean (join parts slash) ≡ join parts slash
unfolding clean
clean_accepted parts h a =
    let whole : clean_parts false [] (split (join parts slash) slash) ≡ parts =
      rw (split_plain parts h a) (clean_parts-plain [] parts h) in
    rw (unrooted_plain parts h a) (rw whole (rw a))

-- The path of an accepted key is itself accepted, as it is.
pub safe_rel_path_idem : (key r : Text) → safe_rel_path key ≡ ok r → safe_rel_path r ≡ ok r
unfolding safe_rel_path
safe_rel_path_idem key r h =
    let (e, a) = Accepted-body key r h in
    let parts = cleaned key in
    let a' : Accepted (join parts slash) = subst Accepted e a in
    let plain = IsPlain-of_Accepted parts (cleaned-Shape key) a' in
    let fixed : clean r ≡ r = rw e (clean_accepted parts plain a'.0) in
    let rel : has_prefix r (slash ∷ []) ≡ false = rw e (unrooted_plain parts plain a'.0) in
    rw (a.0, rel, fixed) (rw (a.1, a.2, a.3))
