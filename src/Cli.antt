-- ===== src/Cli.antt =====
-- The device selector and the arguments of src/cli.rs. What `clap` makes of the command line is a
-- parameter: the values of the arguments that were given.
use usbip_macos.Prelude.{
  ℕ, zero, suc, ◌+◌, ◌/◌, ◌%◌, ltb, not, ◌||◌, ◌≡◌, refl, ap, subst, ==→eq, eq→==, arith, ◌⊎◌, inl,
  inr, Bool, true, false, Bool-cases, ◌&&◌, List, [], ◌∷◌, ◌++◌, Option, none, some, All, ◌==◌,
  if◌then◌else◌,
}
use usbip_macos.Protocol.Types.{ExportedDevice}
use usbip_macos.Client.Connect.{same_name}

pub data Selector : Type 0 where
  bus_id : List ℕ → Selector
  dev_num : ℕ → Selector
  ids : ℕ → ℕ → Selector

unfoldable pub matches : Selector → ExportedDevice → Bool
matches (bus_id busid) device = same_name device.busid busid
matches (dev_num devnum) device = device.devnum == devnum
matches (ids vendor product) device = device.id_vendor == vendor && device.id_product == product

unfoldable pub find : Selector → List ExportedDevice → Option ExportedDevice
find selector [] = none
find selector (d ∷ devices) =
    let rest = find selector devices in if matches selector d then some d else rest

-- What a selector means.
abbrev pub Selected : Selector → ExportedDevice → Type 0
Selected (bus_id busid) device = device.busid ≡ busid
Selected (dev_num devnum) device = device.devnum ≡ devnum
Selected (ids vendor product) device = (device.id_vendor ≡ vendor) × (device.id_product ≡ product)

same_name_lem : (a b : List ℕ) → same_name a b ≡ true → a ≡ b
unfolding same_name
same_name_lem [] [] h = refl
same_name_lem [] (y ∷ ys) h = cc
same_name_lem (x ∷ xs) [] h = cc
same_name_lem (x ∷ xs) (y ∷ ys) h =
    rw (==→eq x y (ground (arith, h)), same_name_lem xs ys (ground (arith, h)))

pub same_name_refl : (name : List ℕ) → same_name name name ≡ true
unfolding same_name
same_name_refl [] = refl
same_name_refl (x ∷ xs) = rw (eq→== x x refl, same_name_refl xs) refl

matches-Selected :
    (selector : Selector) (device : ExportedDevice)
    → matches selector device ≡ true
    → Selected selector device
unfolding matches
matches-Selected (bus_id busid) device h = same_name_lem device.busid busid h
matches-Selected (dev_num devnum) device h = ==→eq device.devnum devnum h
matches-Selected (ids vendor product) device h = (
  ==→eq device.id_vendor vendor (ground (arith, h)),
  ==→eq device.id_product product (ground (arith, h)),
)

matches-only :
    (selector : Selector) (device : ExportedDevice)
    → Selected selector device
    → matches selector device ≡ true
unfolding matches
matches-only (bus_id busid) device e =
    subst (λ (b : List ℕ). same_name device.busid b ≡ true) e (same_name_refl device.busid)
matches-only (dev_num devnum) device e = eq→== device.devnum devnum e
matches-only (ids vendor product) device e =
    rw (eq→== device.id_vendor vendor e.0, eq→== device.id_product product e.1) refl

not_Selected :
    (selector : Selector) (device : ExportedDevice)
    → matches selector device ≡ false
    → ¬ Selected selector device
not_Selected selector device miss s = ground (arith, miss, matches-only selector device s)

-- No device before `d` in the list is selected, and `d` is.
pub record IsFirst (selector : Selector) (devices : List ExportedDevice) (d : ExportedDevice)
    : Type 0 where
  pub before : List ExportedDevice
  pub after : List ExportedDevice
  pub split : devices ≡ before ++ d ∷ after
  pub skipped : All (λ x. ¬ Selected selector x) before
  pub selected : Selected selector d

-- The first device that has the bus id, the device number or both ids that the selector asks for is
-- found; or no device has, and none is found.
pub find_lem :
    (selector : Selector) (devices : List ExportedDevice)
    → ((find selector devices ≡ none) × All (λ x. ¬ Selected selector x) devices)
      ⊎ ((d : ExportedDevice) × (find selector devices ≡ some d) × IsFirst selector devices d)
unfolding find
find_lem selector [] = inl (refl, _)
find_lem selector (d ∷ devices) = elim (Bool-cases (matches selector d)) [
  | inl hit ↦ inr (
    d,
    rw hit,
    record {
      before = [];
      after = devices;
      split = refl;
      skipped = _;
      selected = matches-Selected selector d hit;
    },
  )
  | inr miss ↦ elim (find_lem selector devices) [
    | inl (e, all) ↦ inl (rw miss e, (not_Selected selector d miss, all))
    | inr (x, e, first) ↦ inr (
      x,
      rw miss e,
      record {
        before = d ∷ first.before;
        after = first.after;
        split = ap (λ (t : List ExportedDevice). d ∷ t) first.split;
        skipped = (not_Selected selector d miss, first.skipped);
        selected = first.selected;
      },
    )
  ]
]

pub data Action : Type 0 where
  list_exported : Action
  attach : Selector → Bool → Action

pub record Args : Type 0 where
  pub address : List ℕ
  pub action : Action

-- The arguments of `attach`, and those of the program, with the subcommand if it is `attach`.
pub record AttachMatches : Type 0 where
  pub busid : Option (List ℕ)
  pub device : Option ℕ
  pub vendor_id : Option ℕ
  pub product_id : Option ℕ
  pub wait_for_enter : Bool

pub record ArgMatches : Type 0 where
  pub remote : Option (List ℕ)
  pub tcp_port : Option ℕ
  pub attaching : Option AttachMatches

-- A number of at most `count` more digits than one, in ASCII.
unfoldable pub decimal : ℕ → ℕ → List ℕ
decimal zero n = (48 + n % 10) ∷ []
decimal (suc count) n =
    if ltb n 10 then (48 + n) ∷ [] else decimal count (n / 10) ++ (48 + n % 10) ∷ []

unfoldable pub has_byte : ℕ → List ℕ → Bool
has_byte b [] = false
has_byte b (x ∷ xs) = x == b || has_byte b xs

unfoldable pub begins_with : ℕ → List ℕ → Bool
begins_with b [] = false
begins_with b (x ∷ xs) = x == b

-- The address of a host and a port, which has five digits at most: an IPv6 address gets brackets.
unfoldable pub address_text : List ℕ → ℕ → List ℕ
address_text host port =
    if has_byte 0x3a host && not (begins_with 0x5b host)
    then 0x5b ∷ (host ++ (0x5d ∷ 0x3a ∷ decimal 4 port))
    else host ++ (0x3a ∷ decimal 4 port)

-- `none` is the panic of `expect` where both ids are not there.
unfoldable pub ids_of : Option ℕ → Option ℕ → Option Selector
ids_of (some vendor) (some product) = some (ids vendor product)
ids_of (some vendor) none = none
ids_of none product = none

unfoldable pub selector_of : Option (List ℕ) → Option ℕ → AttachMatches → Option Selector
selector_of (some busid) device m = some (bus_id busid)
selector_of none (some devnum) m = some (dev_num devnum)
selector_of none none m = ids_of m.vendor_id m.product_id

unfoldable pub action_of : Option AttachMatches → Option Action
action_of none = some list_exported
action_of (some m) = elim (selector_of m.busid m.device m) [
  | none ↦ none
  | some selector ↦ some (attach selector m.wait_for_enter)
]

-- `none` is a panic of `expect`.
unfoldable pub args_of : Option (List ℕ) → Option ℕ → Option Action → Option Args
args_of none port action = none
args_of (some host) none action = none
args_of (some host) (some port) none = none
args_of (some host) (some port) (some action) =
    some (record { address = address_text host port; action = action })

unfoldable pub parse : ArgMatches → Option Args
parse m = args_of m.remote m.tcp_port (action_of m.attaching)
