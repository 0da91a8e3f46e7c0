-- ===== src/Pci/Scan.antt =====
-- What pci_init does: the pages of the headers that it looks at are mapped, in order, and the
-- functions whose bus, device and own header are present become the devices.
use mathlib.Core.Option.{none-ne-some, some-injective}
use visual_os.Base.{
  ◌==◌, length-append, length, get_elem?, ◌<◌, ◌≤◌, arith, some, add64, update, lt→ltb, ==_refl, ℕ,
  zero, suc, ◌+◌, ◌≡◌, refl, Bool, true, false, if◌then◌else◌, ◌∙◌, List, [], ◌∷◌, ◌++◌,
}
use visual_os.Base.Libc.{Libc}
use visual_os.Base.Run.{Run, ok, spins, out_of_fuel, overruns, Cmd, pure, and_then, ◌>>◌}
use visual_os.Pageframe.{pageframe_reserve}
use visual_os.Paging.{Paging, in_pageframe}
use visual_os.Paging.Regions.{paging_identity_map}
use visual_os.Pci.{Pci, PciMemory, pci_max_lanes, in_paging, each_index, add_device, map_header}

-- The state with one device more.
abbrev pub with_device : ℕ → Pci → Pci
with_device a s = record s {
  devices = update s.devices s.devices_num a;
  devices_num = add64 s.devices_num 1;
}

-- The devices, one after the other.
abbrev pub add_all : List ℕ → Pci → Pci
add_all [] s = s
add_all (a ∷ found) s = add_all found (with_device a s)

-- `f i`, `f (i + 1)`, ..., in a row.
abbrev pub concat_range {ℓ} : {A : Type ℓ} → (rounds i : ℕ) → (ℕ → List A) → List A
concat_range zero i f = []
concat_range (suc rounds) i f = f i ++ concat_range rounds (i + 1) f

-- What is left of a run on the page tables.
abbrev pub keeping : List ℕ → Pci → Run Paging (Unit {0}) → Run Pci (Unit {0})
keeping found s (ok u t) = ok tt (add_all found (record s { paging = t }))
keeping found s spins = spins
keeping found s out_of_fuel = out_of_fuel
keeping found s overruns = overruns

-- The same, before a device is added.
abbrev kept : Pci → Run Paging (Unit {0}) → Run Pci (Unit {0})
kept s r = elim r [
  | ok a t ↦ ok a (record s { paging = t })
  | spins ↦ spins
  | out_of_fuel ↦ out_of_fuel
  | overruns ↦ overruns
]

add_all-append : (xs ys : List ℕ) (s : Pci) → add_all (xs ++ ys) s ≡ add_all ys (add_all xs s)
add_all-append [] ys s = refl
add_all-append (x ∷ xs) ys s = add_all-append xs ys (with_device x s)

add_all-paging :
    (xs : List ℕ) (s : Pci) (t : Paging)
    → record (add_all xs s) { paging = t } ≡ add_all xs (record s { paging = t })
add_all-paging [] s t = refl
add_all-paging (x ∷ xs) s t = add_all-paging xs (with_device x s) t

paging-add_all : (xs : List ℕ) (s : Pci) → (add_all xs s).paging ≡ s.paging
paging-add_all [] s = refl
paging-add_all (x ∷ xs) s = paging-add_all xs (with_device x s)

pub num-add_all :
    (xs : List ℕ) (s : Pci)
    → s.devices_num + length xs ≤ pci_max_lanes
    → (add_all xs s).devices_num ≡ s.devices_num + length xs
num-add_all [] s room = omega arith
num-add_all (x ∷ xs) s room =
    let one : add64 s.devices_num 1 ≡ s.devices_num + 1 = omega (arith, room) in
    num-add_all xs (with_device x s) (omega (arith, one, room)) ∙ omega (arith, one)

-- The devices of before stay, and the new ones stand behind them, in their order.
pub record IsBehind (found : List ℕ) (s t : Pci) : Type 0 where
  pub num : t.devices_num ≡ s.devices_num + length found
  pub before : (j : ℕ) → j < s.devices_num → t.devices j ≡ s.devices j
  pub new : (j a : ℕ) → get_elem? found j ≡ some a → t.devices (s.devices_num + j) ≡ a

devices-add_all :
    (xs : List ℕ) (s : Pci)
    → s.devices_num + length xs ≤ pci_max_lanes
    → (j : ℕ) → j < s.devices_num
    → (add_all xs s).devices j ≡ s.devices j
devices-add_all [] s room j l = refl
devices-add_all (x ∷ xs) s room j l =
    let one : add64 s.devices_num 1 ≡ s.devices_num + 1 = omega (arith, room) in
    devices-add_all xs (with_device x s) (omega (arith, one, room)) j (omega (arith, one, l))
    ∙ ground (arith, l)

new-add_all :
    (xs : List ℕ) (s : Pci)
    → s.devices_num + length xs ≤ pci_max_lanes
    → (j a : ℕ) → get_elem? xs j ≡ some a
    → (add_all xs s).devices (s.devices_num + j) ≡ a
new-add_all [] s room j a e = absurd (none-ne-some a e)
new-add_all (x ∷ xs) s room zero a e =
    let one : add64 s.devices_num 1 ≡ s.devices_num + 1 = omega (arith, room) in
    let at : s.devices_num + 0 ≡ s.devices_num = omega arith in
    let own : (if s.devices_num == s.devices_num then x else s.devices s.devices_num) ≡ x =
      rw (==_refl s.devices_num) refl in
    rw at (
      devices-add_all xs (with_device x s) (omega (arith, one, room)) s.devices_num
        (omega (arith, one))
      ∙ own
      ∙ some-injective x a e)
new-add_all (x ∷ xs) s room (suc j) a e =
    let one : add64 s.devices_num 1 ≡ s.devices_num + 1 = omega (arith, room) in
    let at : s.devices_num + suc j ≡ add64 s.devices_num 1 + j = omega (arith, one) in
    rw at (new-add_all xs (with_device x s) (omega (arith, one, room)) j a e)

pub add_all-IsBehind :
    (found : List ℕ) (s : Pci)
    → s.devices_num + length found ≤ pci_max_lanes
    → IsBehind found s (add_all found s)
add_all-IsBehind found s room = record {
  num = num-add_all found s room;
  before = devices-add_all found s room;
  new = new-add_all found s room;
}

module _ (libc : Libc) (memory : PciMemory) where
  -- Reserve and map the page of each of the addresses.
  abbrev pub map_all : List ℕ → Cmd Paging (Unit {0})
  map_all [] = pure tt
  map_all (a ∷ visited) =
      (in_pageframe (pageframe_reserve a 1) >> paging_identity_map libc a 1) >> map_all visited

  -- A command maps the pages of `visited`, and if that returns it adds the devices of `found`, where
  -- there is room for them.
  pub record Does (m : Cmd Pci (Unit {0})) (visited found : List ℕ) : Type 0 where
    pub run :
        (s : Pci)
        → s.devices_num + length found ≤ pci_max_lanes
        → m s ≡ keeping found s (map_all visited s.paging)

  map_all-append :
      (xs ys : List ℕ) (p : Paging)
      → map_all (xs ++ ys) p ≡ and_then (map_all xs p) (λ u. map_all ys)
  map_all-append [] ys p = refl
  map_all-append (x ∷ xs) ys p =
      behind (map_all-append xs ys)
        (and_then (in_pageframe (pageframe_reserve x 1) p) (λ u. paging_identity_map libc x 1))
    where
      behind :
          ((t : Paging) → map_all (xs ++ ys) t ≡ and_then (map_all xs t) (λ u. map_all ys))
          → (r : Run Paging (Unit {0}))
          → and_then r (λ u. map_all (xs ++ ys))
            ≡ and_then (and_then r (λ u. map_all xs)) (λ u. map_all ys)
      behind ih (ok u t) = ih t
      behind ih spins = refl
      behind ih out_of_fuel = refl
      behind ih overruns = refl

  pub nothing-Does : Does (pure tt) [] []
  nothing-Does = record { run = λ s room. refl }

  pub seq-Does :
      {m n : Cmd Pci (Unit {0})} {v v' f f' : List ℕ}
      → Does m v f
      → Does n v' f'
      → Does (m >> n) (v ++ v') (f ++ f')
  seq-Does {m} {n} {v} {v'} {f} {f'} dm dn = record {
    run = λ s room.
        let both = rw length-append at room in
        rw (dm.run s (omega (arith, both)), map_all-append v v' s.paging)
          (rest s both (map_all v s.paging));
  }
    where
      last :
          (s : Pci) (t : Paging) (r : Run Paging (Unit {0}))
          → keeping f' (add_all f (record s { paging = t })) r ≡ keeping (f ++ f') s r
      last s t (ok u p) =
          rw
            (
              add_all-paging f (record s { paging = t }) p,
              add_all-append f f' (record s { paging = p }),
            )
            refl
      last s t spins = refl
      last s t out_of_fuel = refl
      last s t overruns = refl

      rest :
          (s : Pci)
          → s.devices_num + (length f + length f') ≤ pci_max_lanes
          → (r : Run Paging (Unit {0}))
          → and_then (keeping f s r) (λ u. n) ≡ keeping (f ++ f') s (and_then r (λ u. map_all v'))
      rest s both (ok u t) =
          dn.run (add_all f (record s { paging = t }))
            (omega (arith, both, num-add_all f (record s { paging = t }) (omega (arith, both))))
          ∙ rw (paging-add_all f (record s { paging = t })) (last s t (map_all v' t))
      rest s both spins = refl
      rest s both out_of_fuel = refl
      rest s both overruns = refl

  pub if-Does :
      (b : Bool) {m : Cmd Pci (Unit {0})} {v f : List ℕ}
      → Does m v f
      → Does (if b then m else pure tt) (if b then v else []) (if b then f else [])
  if-Does true d = d
  if-Does false d = nothing-Does

  pub each-Does :
      (body : ℕ → Cmd Pci (Unit {0})) (v f : ℕ → List ℕ)
      → ((i : ℕ) → Does (body i) (v i) (f i))
      → (rounds i : ℕ)
      → Does (each_index rounds i body) (concat_range rounds i v) (concat_range rounds i f)
  unfolding each_index
  each-Does body v f d zero i = nothing-Does
  each-Does body v f d (suc rounds) i = seq-Does (d i) (each-Does body v f d rounds (i + 1))

  pub add_device-Does : (a : ℕ) → Does (add_device a) [] (a ∷ [])
  unfolding add_device
  add_device-Does a = record {
    run = λ s room. rw (lt→ltb s.devices_num 32 (omega (arith, room)), add_device) refl;
  }

  pub map_header-Does : (a : ℕ) → Does (map_header libc memory a) (a ∷ []) []
  unfolding map_header
  map_header-Does a = record {
    run = λ s room. both s (in_pageframe (pageframe_reserve a 1) s.paging);
  }
    where
      map_run :
          (s : Pci) (t : Paging) (r : Run Paging (Unit {0}))
          → kept (record s { paging = t }) r ≡ keeping [] s (and_then r (λ u. pure tt))
      map_run s t (ok u p) = refl
      map_run s t spins = refl
      map_run s t out_of_fuel = refl
      map_run s t overruns = refl

      both :
          (s : Pci) (r : Run Paging (Unit {0}))
          → and_then (kept s r) (λ u. in_paging (paging_identity_map libc a 1))
            ≡ keeping [] s
                (and_then (and_then r (λ u. paging_identity_map libc a 1)) (λ u. pure tt))
      both s (ok u t) = map_run s t (paging_identity_map libc a 1 t)
      both s spins = refl
      both s out_of_fuel = refl
      both s overruns = refl
