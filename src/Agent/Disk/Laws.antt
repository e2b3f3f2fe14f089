-- ===== src/Agent/Disk/Laws.antt =====
-- The reply of an agent about its disks.
use gpupgrade.Base.{
  ℕ, ◌≤◌, String, ◌≡◌, ◌≢◌, ◌∙◌, refl, Bool, true, false, ◌||◌, none, some, List, [], ◌∷◌, any, All,
  if◌then◌else◌, ◌==◌, ==_iff, string_eq, arith, inl, inr, Bool-cases, Option-cases,
}
use gpupgrade.System.{ok}
use gpupgrade.Config.Segment.{MapOrder, times}
use gpupgrade.Agent.Disk.{
  Sigar, Usages, set_usage, names, get_usage, usage_loop, disk_usage, list_usages,
  check_disk_space_on_agents,
}

module _ (sigar : Sigar) where
  open sigar use {Usage, file_systems, usage_of}

  abbrev Entry : Type 0
  Entry = String × Usage

  -- The entry has what gosigar says of its directory.
  abbrev pub IsRead : String × Usage → Type 0
  IsRead (name, usage) = usage_of name ≡ ok usage

  times-set_usage :
      (x name : String) (usage : Usage) (m : Usages sigar)
      → times x (names sigar (set_usage sigar name usage m)) ≡ (
          if x == name
          then (if any (λ y. y == name) (names sigar m) then times x (names sigar m) else 1)
          else times x (names sigar m))
  unfolding set_usage
  times-set_usage x name usage [] = ground arith
  times-set_usage x name usage ((n, u) ∷ m) =
      ground (arith, times-set_usage x name usage m, ==_iff n name, ==_iff x name, ==_iff x n)

  set_usage-All :
      (name : String) (usage : Usage) (m : Usages sigar)
      → usage_of name ≡ ok usage
      → All IsRead m
      → All IsRead (set_usage sigar name usage m)
  unfolding set_usage
  set_usage-All name usage [] h k = (h, tt)
  set_usage-All name usage ((n, u) ∷ m) h (this, rest) = elim (Bool-cases (n == name)) [
    | inl e ↦ rw e (h, rest)
    | inr e ↦ rw e (this, set_usage-All name usage m h rest)
  ]

  abbrev pub count : Bool → ℕ
  count b = if b then 1 else 0

  any-times :
      (x : String) (l : List String)
      → (any (λ y. y == x) l ≡ false → times x l ≡ 0) × (any (λ y. y == x) l ≡ true → 1 ≤ times x l)
  any-times x [] = (λ h. refl, λ h. cc)
  any-times x (y ∷ l) = ground (arith, any-times x l, ==_iff x y, ==_iff y x)

  -- Each directory for which `b` holds is a key once, and no other is one.
  abbrev Keys : Usages sigar → (String → Bool) → Type 0
  Keys m b = (x : String) → times x (names sigar m) ≡ count (b x)

  set_usage-Keys :
      (name : String) (usage : Usage) (m : Usages sigar) (b : String → Bool)
      → Keys m b
      → Keys (set_usage sigar name usage m) (λ x. x == name || b x)
  set_usage-Keys name usage m b h x = ground (
    arith,
    times-set_usage x name usage m,
    h x,
    h name,
    any-times name (names sigar m),
    ==_iff x name,
  )

  -- Every file system can be read.
  abbrev pub Readable : List String → Type 0
  Readable dirs = All (λ name. (usage : Usage) × (usage_of name ≡ ok usage)) dirs

  usage_loop_ok :
      (name : String) (usage : Usage) (dirs : List String) (m : Usages sigar)
      → usage_of name ≡ ok usage
      → usage_loop sigar (name ∷ dirs) m ≡ usage_loop sigar dirs (set_usage sigar name usage m)
  unfolding usage_loop
  usage_loop_ok name usage dirs m known = ground arith

  usage_loop-reads :
      (dirs : List String) (m : Usages sigar) (b : String → Bool)
      → Readable dirs
      → Keys m b
      → All IsRead m
      → (m' : Usages sigar) × (usage_loop sigar dirs m ≡ ok m')
        × Keys m' (λ x. any (λ y. y == x) dirs || b x)
        × All IsRead m'
  unfolding usage_loop
  usage_loop-reads [] m b h keys read = (m, refl, keys, read)
  usage_loop-reads (name ∷ dirs) m b ((usage, known), h) keys read =
      let (m', made, keys', read') =
        usage_loop-reads dirs (set_usage sigar name usage m) (λ x. x == name || b x) h
          (set_usage-Keys name usage m b keys) (set_usage-All name usage m known read) in
      (
        m',
        usage_loop_ok name usage dirs m known ∙ made,
        λ x. ground (arith, keys' x, ==_iff x name, ==_iff name x),
        read',
      )

  get_usage-IsRead :
      (x : String) (usage : Usage) (m : Usages sigar)
      → All IsRead m
      → get_usage sigar x m ≡ some usage
      → usage_of x ≡ ok usage
  unfolding get_usage
  get_usage-IsRead x usage [] h e = cc
  get_usage-IsRead x usage ((n, u) ∷ m) (this, rest) e =
      ground (arith, get_usage-IsRead x usage m rest, ==_iff n x)

  get_usage-none :
      (x : String) (m : Usages sigar) → get_usage sigar x m ≡ none → times x (names sigar m) ≡ 0
  unfolding get_usage
  get_usage-none x [] e = refl
  get_usage-none x ((n, u) ∷ m) e = ground (arith, get_usage-none x m, ==_iff n x, ==_iff x n)

  list_usages-some :
      (x : String) (usage : Usage) (keys : List String) (m : Usages sigar)
      → get_usage sigar x m ≡ some usage
      → list_usages sigar (x ∷ keys) m ≡ (x, usage) ∷ list_usages sigar keys m
  unfolding list_usages
  list_usages-some x usage keys m e = ground arith

  list_usages-none :
      (x : String) (keys : List String) (m : Usages sigar)
      → get_usage sigar x m ≡ none
      → list_usages sigar (x ∷ keys) m ≡ list_usages sigar keys m
  unfolding list_usages
  list_usages-none x keys m e = ground arith

  list_usages-IsRead :
      (keys : List String) (m : Usages sigar) → All IsRead m → All IsRead (list_usages sigar keys m)
  list_usages-IsRead [] m h = unfold list_usages in tt
  list_usages-IsRead (x ∷ keys) m h = elim (Option-cases (get_usage sigar x m)) [
    | inl e ↦ rw (list_usages-none x keys m e) (list_usages-IsRead keys m h)
    | inr (usage, e) ↦
        rw (list_usages-some x usage keys m e)
          (get_usage-IsRead x usage m h e, list_usages-IsRead keys m h)
  ]

  -- A key of the map is listed as often as it comes.
  times-list_usages :
      (x : String) (keys : List String) (m : Usages sigar)
      → times x (names sigar m) ≢ 0
      → times x (names sigar (list_usages sigar keys m)) ≡ times x keys
  times-list_usages x [] m h = unfold list_usages in refl
  times-list_usages x (y ∷ keys) m h = elim (Option-cases (get_usage sigar y m)) [
    | inl e ↦
        rw (list_usages-none y keys m e)
          (ground (arith, times-list_usages x keys m h, get_usage-none y m e, ==_iff x y))
    | inr (usage, e) ↦
        rw (list_usages-some y usage keys m e) (ground (arith, times-list_usages x keys m h))
  ]

  -- No other is listed.
  times-list_usages-none :
      (x : String) (keys : List String) (m : Usages sigar)
      → times x keys ≡ 0
      → times x (names sigar (list_usages sigar keys m)) ≡ 0
  times-list_usages-none x [] m h = unfold list_usages in refl
  times-list_usages-none x (y ∷ keys) m h = elim (Option-cases (get_usage sigar y m)) [
    | inl e ↦ rw (list_usages-none y keys m e) (times-list_usages-none x keys m (ground arith))
    | inr (usage, e) ↦
        rw (list_usages-some y usage keys m e) (ground (arith, times-list_usages-none x keys m))
  ]

  replies :
      (order : MapOrder) (dirs : List String) (m : Usages sigar)
      → file_systems ≡ ok dirs
      → usage_loop sigar dirs [] ≡ ok m
      → check_disk_space_on_agents sigar order
        ≡ ok (list_usages sigar (order.keys (names sigar m)) m)
  unfolding check_disk_space_on_agents disk_usage
  replies order dirs m listed made = ground arith

  -- If gosigar lists the file systems and gives the usage of each, then the agent replies, whatever the
  -- order in which Go visits the map: each directory of the list stands in the reply once, also if the
  -- list has it twice, no other stands there, and each with the usage that gosigar gives for it.
  pub check_disk_space_on_agents-once :
      (order : MapOrder) (dirs : List String)
      → file_systems ≡ ok dirs
      → Readable dirs
      → (reply : List (String × Usage)) × (check_disk_space_on_agents sigar order ≡ ok reply)
        × ((x : String) → times x (names sigar reply) ≡ count (any (λ y. y == x) dirs))
        × All IsRead reply
  check_disk_space_on_agents-once order dirs listed readable =
      let (m, made, keys, read) = usage_loop-reads dirs [] (λ x. false) readable (λ x. refl) tt in
      let keys_of = order.keys (names sigar m) in
      (
        list_usages sigar keys_of m,
        replies order dirs m listed made,
        λ x. ground (
          arith,
          keys x,
          order.keys-times x (names sigar m),
          times-list_usages x keys_of m,
          times-list_usages-none x keys_of m,
        ),
        list_usages-IsRead keys_of m read,
      )
