-- ===== src/System/PathLaws.antt =====
-- Which paths lie in which directory.
use gpupgrade.Base.{
  String, true, false, ◌≡◌, refl, ◌≢◌, some, [], ◌∷◌, ◌++◌, arith, string_eq, ==_iff, Bool-cases,
  inl, inr,
}
use gpupgrade.System.Path.{FilePath, ◌/◌, below, is_within}

pub below-append : (d r : FilePath) → below d (d ++ r) ≡ some r
unfolding below
below-append [] r = refl
below-append (a ∷ d) r = ground (arith, ==_iff a a, below-append d r)

pub below-eq : (d q r : FilePath) → below d q ≡ some r → q ≡ d ++ r
unfolding below
below-eq [] q r h = ground arith
below-eq (a ∷ d) [] r h = ground arith
below-eq (a ∷ d) (b ∷ q) r h = ground (arith, ==_iff a b, below-eq d q r)

pub is_within-append : (d r : FilePath) → is_within d (d ++ r) ≡ true
unfolding is_within
is_within-append d r = ground (arith, below-append d r)

pub is_within_self : (d : FilePath) → is_within d d ≡ true
unfolding is_within below
is_within_self [] = refl
is_within_self (a ∷ d) = ground (arith, ==_iff a a, is_within_self d)

pub is_within_trans :
    (d p q : FilePath) → is_within d p ≡ true → is_within p q ≡ true → is_within d q ≡ true
unfolding is_within below
is_within_trans [] p q h k = refl
is_within_trans (a ∷ d) [] q h k = ground arith
is_within_trans (a ∷ d) (b ∷ p) [] h k = ground arith
is_within_trans (a ∷ d) (b ∷ p) (c ∷ q) h k =
    ground (arith, ==_iff a b, ==_iff b c, ==_iff a c, is_within_trans d p q)

-- Two names in one directory have no path in common.
pub siblings_apart :
    (base : FilePath) (s t : String) (q : FilePath)
    → s ≢ t
    → is_within (base / s) q ≡ true
    → is_within (base / t) q ≡ false
unfolding is_within below
siblings_apart [] s t [] apart h = ground arith
siblings_apart [] s t (b ∷ q) apart h = ground (arith, ==_iff s b, ==_iff t b)
siblings_apart (a ∷ base) s t [] apart h = ground arith
siblings_apart (a ∷ base) s t (b ∷ q) apart h = ground (arith, siblings_apart base s t q apart)

-- Of two directories that hold one path, one holds the other; so what lies in `d` and not in `e`
-- is not reached through a directory of `e`.
pub not_within_prefix :
    (d p q : FilePath) → is_within d q ≡ false → is_within p q ≡ true → is_within d p ≡ false
not_within_prefix d p q h k = elim (Bool-cases (is_within d p)) [
  | inl e ↦ ground (arith, is_within_trans d p q)
  | inr e ↦ e
]

pub not_within_shorter :
    (d : FilePath) (b : String) (r : FilePath) → is_within (d ++ (b ∷ r)) d ≡ false
unfolding is_within below
not_within_shorter [] b r = refl
not_within_shorter (a ∷ d) b r = ground (arith, not_within_shorter d b r)

pub join-append : (e : FilePath) (a : String) (r : FilePath) → (e / a) ++ r ≡ e ++ (a ∷ r)
join-append [] a r = refl
join-append (b ∷ e) a r = rw (join-append e a r)

pub below_self : (d : FilePath) → below d d ≡ some []
unfolding below
below_self [] = refl
below_self (a ∷ d) = ground (arith, ==_iff a a, below_self d)
