-- ===== src/Project/Map/Coasts.antt =====
-- mod_dev_tool/project/src/MapProject.cpp, calculateCoastalProvinces: the loop agrees with what it means
-- for a province to be coastal, although it writes the provinces while it reads them.
use ho_i4_mod_development_to.Base.{
  ◌≡◌, refl, ◌∙◌, Bool, true, false, ◌&&◌, ◌||◌, Option, none, some, List, [], ◌∷◌, if◌then◌else◌,
  elem, arith, Option-cases, inl, inr, Bool-cases,
}
use ho_i4_mod_development_to.Base.Dict
use ho_i4_mod_development_to.Base.Dict.{Dict, lookup-update}
use ho_i4_mod_development_to.Project.{ProvinceId, Province, Project}
use ho_i4_mod_development_to.Project.Map.{
  keys, is_land, is_sea, any_sea, coastal_step, coastal_loop, calculate_coastal_provinces,
}
use ho_i4_mod_development_to.Project.Map.Validation.{elem-keys}

abbrev pub sea_at : Dict Province → ProvinceId → Bool
sea_at m k = elim (Dict.lookup k m) [ none ↦ false | some prov ↦ is_sea prov.province_type ]

abbrev pub touches_sea : Dict Province → List ProvinceId → Bool
touches_sea m [] = false
touches_sea m (k ∷ ks) = sea_at m k || touches_sea m ks

-- A land province is coastal where a sea province is adjacent; the other provinces stay.
abbrev pub coast : Dict Province → Option Province → Option Province
coast m none = none
coast m (some prov) = some (
    if is_land prov.province_type
    then record prov { coastal = touches_sea m prov.adjacent_provinces }
    else prov)

abbrev pub all_there : Dict Province → List ProvinceId → Bool
all_there m [] = true
all_there m (k ∷ ks) = Dict.has k m && all_there m ks

-- The provinces next to a land province are provinces.
abbrev pub IsClosed : Dict Province → Type 0
IsClosed m =
    (k : ProvinceId) (prov : Province)
    → Dict.lookup k m ≡ some prov
    → is_land prov.province_type ≡ true
    → all_there m prov.adjacent_provinces ≡ true

any_sea-touches_sea :
    (m : Dict Province) (ids : List ProvinceId)
    → all_there m ids ≡ true
    → any_sea m ids ≡ some (touches_sea m ids)
unfolding any_sea
any_sea-touches_sea m [] h = refl
any_sea-touches_sea m (k ∷ ks) h = ground (arith, any_sea-touches_sea m ks, h)

-- What a loop over some of the provinces does.
pub record Coasted (ks : List ProvinceId) (m n : Dict Province) : Type 0 where
  pub provinces :
      (k : ProvinceId)
      → Dict.lookup k n ≡ (if elem k ks then coast m (Dict.lookup k m) else Dict.lookup k m)

sea_at-Coasted :
    (ks : List ProvinceId) (m n : Dict Province)
    → Coasted ks m n
    → (k : ProvinceId) → sea_at n k ≡ sea_at m k
sea_at-Coasted ks m n r k = elim (Option-cases (Dict.lookup k m)) [
  | inl e ↦ ground (arith, r.provinces k, e)
  | inr (prov, e) ↦ ground (arith, r.provinces k, e)
]

has-Coasted :
    (ks : List ProvinceId) (m n : Dict Province)
    → Coasted ks m n
    → (k : ProvinceId) → Dict.has k n ≡ Dict.has k m
has-Coasted ks m n r k = elim (Option-cases (Dict.lookup k m)) [
  | inl e ↦ ground (arith, r.provinces k, e)
  | inr (prov, e) ↦ ground (arith, r.provinces k, e)
]

touches_sea-Coasted :
    (ks : List ProvinceId) (m n : Dict Province)
    → Coasted ks m n
    → (ids : List ProvinceId) → touches_sea n ids ≡ touches_sea m ids
touches_sea-Coasted ks m n r [] = refl
touches_sea-Coasted ks m n r (k ∷ ids) =
    ground (arith, sea_at-Coasted ks m n r k, touches_sea-Coasted ks m n r ids)

all_there-Coasted :
    (ks : List ProvinceId) (m n : Dict Province)
    → Coasted ks m n
    → (ids : List ProvinceId) → all_there n ids ≡ all_there m ids
all_there-Coasted ks m n r [] = refl
all_there-Coasted ks m n r (k ∷ ids) =
    ground (arith, has-Coasted ks m n r k, all_there-Coasted ks m n r ids)

IsClosed-Coasted :
    (ks : List ProvinceId) (m n : Dict Province) → Coasted ks m n → IsClosed m → IsClosed n
IsClosed-Coasted ks m n r c k prov e l = elim (Option-cases (Dict.lookup k m)) [
  | inl f ↦ absurd (ground (arith, r.provinces k, e, f))
  | inr (old, f) ↦
      all_there-Coasted ks m n r prov.adjacent_provinces
      ∙ ground (arith, r.provinces k, e, f, c k old f, l)
]

coast_twice :
    (ks : List ProvinceId) (m n : Dict Province)
    → Coasted ks m n
    → (o : Option Province) → (coast n o ≡ coast m o) × (coast n (coast m o) ≡ coast m o)
coast_twice ks m n r none = (refl, refl)
coast_twice ks m n r (some prov) =
    let t = touches_sea-Coasted ks m n r prov.adjacent_provinces in
    (ground (arith, t), ground (arith, t))

Coasted-trans :
    (k : ProvinceId) (ks : List ProvinceId) (m n o : Dict Province)
    → Coasted (k ∷ []) m n
    → Coasted ks n o
    → Coasted (k ∷ ks) m o
Coasted-trans k ks m n o a b = record {
  provinces = λ j.
      let c = coast_twice (k ∷ []) m n a (Dict.lookup j m) in
      ground (arith, a.provinces j, b.provinces j, c.0, c.1);
}

coastal_step-Coasted :
    (k : ProvinceId) (m : Dict Province)
    → IsClosed m
    → (n : Dict Province) × (coastal_step false k m ≡ some n) × Coasted (k ∷ []) m n
unfolding coastal_step
coastal_step-Coasted k m c = elim (Option-cases (Dict.lookup k m)) [
  | inl e ↦ (m, ground (arith, e), record { provinces = λ j. ground (arith, e) })
  | inr (prov, e) ↦ elim (Bool-cases (is_land prov.province_type)) [
    | inl l ↦
        let b : Bool = touches_sea m prov.adjacent_provinces in
        let f : Province → Province = λ q. record q { coastal = b } in
        let s = any_sea-touches_sea m prov.adjacent_provinces (c k prov e l) in
        (
          Dict.update k f m,
          ground (arith, e, l, s),
          record { provinces = λ j. ground (arith, e, l, lookup-update k j f m) },
        )
    | inr l ↦ (m, ground (arith, e, l), record { provinces = λ j. ground (arith, e, l) })
  ]
]

coastal_loop-Coasted :
    (ks : List ProvinceId) (m : Dict Province)
    → IsClosed m
    → (n : Dict Province) × (coastal_loop false ks m ≡ some n) × Coasted ks m n
unfolding coastal_loop
coastal_loop-Coasted [] m c = (m, refl, record { provinces = λ k. refl })
coastal_loop-Coasted (k ∷ ks) m c =
    let (n, e, a) = coastal_step-Coasted k m c in
    let (o, f, b) = coastal_loop-Coasted ks n (IsClosed-Coasted (k ∷ []) m n a c) in
    (o, ground (arith, e, f), Coasted-trans k ks m n o a b)

dry_step : (k : ProvinceId) (m : Dict Province) → IsClosed m → coastal_step true k m ≡ some m
unfolding coastal_step
dry_step k m c = elim (Option-cases (Dict.lookup k m)) [
  | inl e ↦ ground (arith, e)
  | inr (prov, e) ↦ elim (Bool-cases (is_land prov.province_type)) [
    | inl l ↦ ground (arith, e, l, any_sea-touches_sea m prov.adjacent_provinces (c k prov e l))
    | inr l ↦ ground (arith, e, l)
  ]
]

dry_loop : (ks : List ProvinceId) (m : Dict Province) → IsClosed m → coastal_loop true ks m ≡ some m
unfolding coastal_loop
dry_loop [] m c = refl
dry_loop (k ∷ ks) m c = ground (arith, dry_step k m c, dry_loop ks m c)

-- Where the provinces next to each land province are there, the calculation throws nothing. A dry run
-- changes nothing. The other changes nothing but `coastal` of the land provinces, which then says
-- whether a sea province is adjacent.
pub calculate_coastal_provinces_lem :
    (p : Project)
    → IsClosed p.provinces
    → (calculate_coastal_provinces true p ≡ some p)
      × (m : Dict Province) × (calculate_coastal_provinces false p
          ≡ some (record p { provinces = m }))
      × ((k : ProvinceId) → Dict.lookup k m ≡ coast p.provinces (Dict.lookup k p.provinces))
unfolding calculate_coastal_provinces
calculate_coastal_provinces_lem p c =
    let (m, e, r) = coastal_loop-Coasted (keys p.provinces) p.provinces c in
    (
      ground (arith, dry_loop (keys p.provinces) p.provinces c),
      m,
      ground (arith, e),
      λ k. elim (Option-cases (Dict.lookup k p.provinces)) [
        | inl n ↦ ground (arith, r.provinces k, n)
        | inr (prov, n) ↦ ground (arith, r.provinces k, n, elem-keys k p.provinces prov n)
      ],
    )
