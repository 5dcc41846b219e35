-- ===== src/Hci/Uas.antt =====
-- `hide_uas` of src/hci.rs. Indexing is by `at`, which is 0 outside of the descriptor: the guards
-- of the code keep every index inside.
use usbip_macos.Prelude.{
  ℕ, zero, suc, ◌+◌, ◌-◌, ◌%◌, ◌^◌, Bool, false, not, ◌&&◌, ◌||◌, List, [], ◌∷◌, ◌++◌, Option, none,
  some, length, take, drop, ltb, leb, ◌==◌, if◌then◌else◌,
}
use usbip_macos.Hci.Messages.{le_bytes}
use usbip_macos.Hci.Endpoints.{at, u16_le}

-- The byte range of an interface descriptor and the descriptors that belong to it.
pub record Group : Type 0 where
  pub start : ℕ
  pub end : ℕ

-- `groups.last_mut().filter(..)`, and the assignment to `g.end`.
unfoldable pub extend_last : ℕ → List Group → List Group
extend_last e [] = []
extend_last e (g ∷ []) = (if g.start == g.end then g else record { start = g.start; end = e }) ∷ []
extend_last e (g ∷ (h ∷ gs)) = g ∷ extend_last e (h ∷ gs)

-- The match on the type of the descriptor at `i`.
unfoldable pub next_groups : List ℕ → List Group → ℕ → List Group
next_groups config groups i =
    if at config (i + 1) == 4
    then groups ++ record { start = i; end = i + at config i } ∷ []
    else if at config (i + 1) == 0x0b
    then groups ++ record { start = i; end = i } ∷ []
    else extend_last (i + at config i) groups

-- The loop. The outer option is `none` when the fuel runs out, the inner one for a malformed
-- descriptor.
unfoldable pub collect : ℕ → List ℕ → List Group → ℕ → Option (Option (List Group))
collect zero config groups i = none
collect (suc fuel) config groups i =
    let rest = collect fuel config (next_groups config groups i) (i + at config i) in
    if ltb i (length config)
    then (if ltb (at config i) 2 || ltb (length config) (i + at config i) then some none else rest)
    else some (some groups)

unfoldable pub is_uas : List ℕ → Group → Bool
is_uas config g =
    leb 9 (g.end - g.start)
    && (at config (g.start + 5) == 0x08
        && (at config (g.start + 6) == 0x06 && at config (g.start + 7) == 0x62))

unfoldable pub fallback : List ℕ → List Group → ℕ → Bool
fallback config [] number = false
fallback config (g ∷ gs) number =
    (leb 9 (g.end - g.start) && (at config (g.start + 2) == number && not (is_uas config g)))
    || fallback config gs number

-- Those of `gs` that are hidden, where `groups` are all.
unfoldable pub hidden_of : List ℕ → List Group → List Group → List Group
hidden_of config groups [] = []
hidden_of config groups (g ∷ gs) =
    let rest = hidden_of config groups gs in
    if is_uas config g && fallback config groups (at config (g.start + 2)) then g ∷ rest else rest

-- What is copied from `from` on.
unfoldable pub copy_rest : List ℕ → List Group → ℕ → List ℕ
copy_rest config [] from = drop from config
copy_rest config (g ∷ gs) from =
    take (g.start - from) (drop from config) ++ copy_rest config gs g.end

-- `out[2..4].copy_from_slice(&total)`
unfoldable pub set_total : List ℕ → List ℕ
set_total out = take 2 out ++ (le_bytes 2 (length out % 2 ^ 16) ++ drop 4 out)

unfoldable pub hide : List ℕ → List Group → Option (ℕ × ℕ) × List ℕ
hide config [] = (none, config)
hide config (g ∷ gs) =
    let out = copy_rest config (g ∷ gs) 0 in
    (some (u16_le (at config 2) (at config 3), length out % 2 ^ 16), set_total out)

unfoldable pub is_uas_candidate : List ℕ → Bool
is_uas_candidate config =
    not (ltb (length config) 9 || (ltb (at config 0) 9 || not (at config 1 == 2)))

-- The result of the call and the descriptor after it; `none` when the fuel of the loop runs out.
unfoldable pub hide_uas : List ℕ → Option (Option (ℕ × ℕ) × List ℕ)
hide_uas config =
    if is_uas_candidate config
    then elim (collect (suc (length config)) config [] (at config 0)) [
      | none ↦ none
      | some none ↦ some (none, config)
      | some (some groups) ↦ some (hide config (hidden_of config groups groups))
    ]
    else some (none, config)
