-- ===== src/Client/Send.antt =====
-- The writer task of src/client.rs. `meanwhile` is what other threads do to the session while a
-- batch is written.
use usbip_macos.Prelude.{
  ℕ, ◌*◌, Bool, ◌&&◌, List, [], ◌∷◌, ◌++◌, length, ltb, if◌then◌else◌, Result, ok, err,
}
use usbip_macos.Wire.{Writer, IoError}
use usbip_macos.Client.State.{write_failed, Shared}
use usbip_macos.Client.Session.{close_with, is_some_reason}

-- Frames are added to a batch while it is shorter than 256 KiB.
unfoldable pub fill_batch : List ℕ → List (List ℕ) → List ℕ × List (List ℕ)
fill_batch batch [] = (batch, [])
fill_batch batch (f ∷ frames) =
    let rest = fill_batch (batch ++ f) frames in
    if ltb (length batch) (256 * 1024) then rest else (batch, f ∷ frames)

-- What a round of the loop ends with: the task waits for a frame, goes on, or has ended.
pub data Round (W : Type 0) : Type 0 where
  waits : Round W
  goes_on : W → Shared → Round W
  ends : W → Shared → Round W

module _ {W : Type 0} ⦃wr : Writer W⦄ where
  open wr use {write_all}

  -- A batch from the first frame on, and the frames that are left in the channel.
  unfoldable pub write_batch : W → List ℕ → List (List ℕ) → Result IoError W × List (List ℕ)
  write_batch w f frames = let filled = fill_batch f frames in (write_all filled.0 w, filled.1)

  unfoldable pub write_frames :
      (Shared → Shared) → W → Shared → Result IoError W → List (List ℕ) → Round W
  write_frames meanwhile w s (ok w') left = goes_on w' (meanwhile (record s { frames = left }))
  write_frames meanwhile w s (err e) left =
      ends w (close_with (write_failed e) (meanwhile (record s { frames = left })))

  -- What the loop does with the frames that are in the channel.
  unfoldable pub write_next : (Shared → Shared) → W → Shared → List (List ℕ) → Round W
  write_next meanwhile w s [] = waits
  write_next meanwhile w s (f ∷ frames) =
      let r = write_batch w f frames in write_frames meanwhile w s r.0 r.1

  -- `sees_closed` is whether `select!` takes the branch of the close, if it can.
  unfoldable pub write_round : Bool → (Shared → Shared) → W → Shared → Round W
  write_round sees_closed meanwhile w s =
      if sees_closed && is_some_reason s.closed_tx
      then ends w s
      else write_next meanwhile w s s.frames
