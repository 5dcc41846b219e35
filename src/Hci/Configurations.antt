-- ===== src/Hci/Configurations.antt =====
-- The endpoint of a configuration as src/hci.rs reads it.
use usbip_macos.Prelude.{ℕ, ◌≤◌, ◌≡◌, ◌≢◌, List, [], ◌∷◌, ◌++◌, length}
use usbip_macos.Hci.Endpoints.{at, u16_le}

-- A descriptor that is no endpoint: its length first, and its type next.
pub record IsBlock (d : List ℕ) : Type 0 where
  pub size : at d 0 ≡ length d
  pub long : 2 ≤ length d
  pub other_type : at d 1 ≢ 5

abbrev pub concat : List (List ℕ) → List ℕ
concat [] = []
concat (d ∷ ds) = d ++ concat ds

-- A configuration descriptor that declares its whole length.
pub record IsConfiguration (head : List ℕ) (size : ℕ) : Type 0 where
  pub long : 4 ≤ length head
  pub own_size : at head 0 ≡ length head
  pub type : at head 1 ≡ 2
  pub total : u16_le (at head 2) (at head 3) ≡ size

module _ (head : List ℕ) (ds : List (List ℕ)) (ep : List ℕ)
    (c : IsConfiguration head (length (head ++ (concat ds ++ ep)))) where
  abbrev desc : List ℕ
  desc = head ++ (concat ds ++ ep)
