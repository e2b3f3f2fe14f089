-- ===== src/Hub/Convert/Laws.antt =====
-- hub/services/hub_upgrade_convert_master.go and hub_upgrade_convert_primaries.go: the ports and the
-- directories that the hub pairs.
use gpupgrade.Base.{
  String, ℤ, pos, minus_one, int_eq, ◌≡◌, refl, none, some, List, [], ◌∷◌, ◌++◌, arith, ◌==◌,
  ==_iff, string_eq, if◌then◌else◌, All, Bool-cases, List-cases, inl, inr,
}
use gpupgrade.System.{FilePath, ok, World}
use gpupgrade.Idl.{DataDirPair}
use gpupgrade.Config.Segment.{Segment, Codec, SegmentOrder}
use gpupgrade.Config.Reader.{
  Reader, of_old_cluster_config, of_new_cluster_config, get_port_for_segment,
  get_segment_configuration,
}
use gpupgrade.Config.Reader.Again.{port-of_new, segments-of_new}
use gpupgrade.Hub.Convert.{
  get_master_ports, new_ports, put, lookup, is_primary, primaries, primaries_from, match_pairs,
  add_pair, get_data_dir_pairs, pair_of,
}

-- If `getMasterPorts` finds two ports, they are equal, whatever the two configurations hold and whichever
-- file operation fails.
pub get_master_ports-equal :
    (json : Codec) (base : FilePath) (r : Reader) (w : World) (old new : ℤ)
    → (get_master_ports json base r w).0.0 ≡ ok (old, new)
    → old ≡ new
unfolding get_master_ports new_ports
get_master_ports-equal json base r w old new h =
    let p = get_port_for_segment json (pos 1) (of_old_cluster_config base r) w in
    elim (Bool-cases (p.0.0 == minus_one)) [
      | inl missing ↦ absurd (ground arith)
      | inr found ↦ ground (arith, port-of_new json (pos 1) base base r w p.1 found)
    ]

-- Each segment of the map is the one found under its content id.
Keyed : List Segment → Type 0
Keyed m = All (λ s. lookup s.content m ≡ some s) m

Distinct : List Segment → Type 0
Distinct [] = Unit
Distinct (s ∷ m) = (lookup s.content m ≡ none) × Distinct m

All-map :
    {P Q : Segment → Type 0} (m : List Segment) → ((s : Segment) → P s → Q s) → All P m → All Q m
All-map [] f h = tt
All-map (s ∷ m) f (h, k) = (f s h, All-map m f k)

Distinct-Keyed : (m : List Segment) → Distinct m → Keyed m
unfolding Distinct Keyed
Distinct-Keyed [] h = tt
Distinct-Keyed (s ∷ m) (h, k) = (
  ground (arith, ==_iff s.content s.content),
  All-map m (λ t found. ground (arith, ==_iff s.content t.content)) (Distinct-Keyed m k),
)

lookup-put :
    (s : Segment) (m : List Segment) (c : ℤ)
    → lookup c (put s m) ≡ (if s.content == c then some s else lookup c m)
unfolding put
lookup-put s [] c = refl
lookup-put s (t ∷ m) c =
    ground
      (arith, ==_iff t.content s.content, ==_iff t.content c, ==_iff s.content c, lookup-put s m c)

put-Distinct : (s : Segment) (m : List Segment) → Distinct m → Distinct (put s m)
unfolding put Distinct
put-Distinct s [] h = (refl, tt)
put-Distinct s (t ∷ m) (h, k) =
    let rest = put-Distinct s m k in
    ground (arith, ==_iff t.content s.content, ==_iff s.content t.content, lookup-put s m t.content)

primaries_from-Distinct :
    (segments m : List Segment) → Distinct m → Distinct (primaries_from segments m)
unfolding primaries_from
primaries_from-Distinct [] m h = h
primaries_from-Distinct (s ∷ segments) m h = elim (Bool-cases (is_primary s)) [
  | inl primary ↦ rw primary (primaries_from-Distinct segments (put s m) (put-Distinct s m h))
  | inr other ↦ rw other (primaries_from-Distinct segments m h)
]

primaries-Keyed : (segments : List Segment) → Keyed (primaries segments)
unfolding primaries Distinct
primaries-Keyed segments =
    Distinct-Keyed (primaries segments) (primaries_from-Distinct segments [] tt)

-- The old directory and port are the new ones.
abbrev pub Itself : DataDirPair → Type 0
Itself p = (p.old_data_dir ≡ p.new_data_dir) × (p.old_port ≡ p.new_port)

abbrev pub AllItself : List (String × List DataDirPair) → Type 0
AllItself pairs = All (λ entry. All Itself entry.1) pairs

All-snoc :
    {A : Type 0} (P : A → Type 0) (l : List A) (a : A) → All P l → P a → All P (l ++ (a ∷ []))
All-snoc P [] a h k = (k, tt)
All-snoc P (x ∷ l) a (g, h) k = (g, All-snoc P l a h k)

add_pair-Itself :
    (host : String) (p : DataDirPair) (m : List (String × List DataDirPair))
    → Itself p
    → AllItself m
    → AllItself (add_pair host p m)
unfolding add_pair
add_pair-Itself host p [] h k = ((h, tt), tt)
add_pair-Itself host p ((other, pairs) ∷ m) h (k, l) = elim (Bool-cases (other == host)) [
  | inl same ↦ rw same (All-snoc Itself pairs p k h, l)
  | inr apart ↦ rw apart (k, add_pair-Itself host p m h l)
]

match_pairs-Itself :
    (l m : List Segment) (pairs : List (String × List DataDirPair))
    → All (λ s. lookup s.content m ≡ some s) l
    → AllItself pairs
    → (r : List (String × List DataDirPair)) × (match_pairs l m pairs ≡ ok r) × AllItself r
unfolding match_pairs
match_pairs-Itself [] m pairs h k = (pairs, refl, k)
match_pairs-Itself (s ∷ l) m pairs (found, h) k =
    let (r, e, same) =
      match_pairs-Itself l m (add_pair s.hostname (pair_of s s) pairs) h
        (add_pair-Itself s.hostname (pair_of s s) pairs (refl, refl) k) in
    (r, ground (arith, ==_iff s.hostname s.hostname), same)

-- `getDataDirPairs` never fails, and each directory and port that it gives to an agent as the new one
-- is the old one, whatever the two configurations hold and whichever file operation fails.
pub get_data_dir_pairs-itself :
    (json : Codec) (order : SegmentOrder) (base : FilePath) (r : Reader) (w : World)
    → (pairs : List (String × List DataDirPair)) × ((get_data_dir_pairs json order base r w).0.0
        ≡ ok pairs)
      × AllItself pairs
unfolding get_data_dir_pairs primaries primaries_from Keyed
get_data_dir_pairs-itself json order base r w =
    let p = get_segment_configuration json (of_old_cluster_config base r) w in
    let new = (get_segment_configuration json (of_new_cluster_config base p.0.1) p.1).0.0 in
    elim (List-cases p.0.0) [
      | inl empty ↦
          match_pairs-Itself (order.range (primaries p.0.0)) (primaries new) []
            (rw empty (order.range-All (λ s. lookup s.content (primaries new) ≡ some s) [] tt)) tt
      | inr (s, l, full) ↦ rw (segments-of_new json base base r w p.1 (rw full (λ e. cc))) (
          match_pairs-Itself (order.range (primaries p.0.0)) (primaries p.0.0) []
            (order.range-All _ (primaries p.0.0) (primaries-Keyed p.0.0)) tt)
    ]
