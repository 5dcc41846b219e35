-- ===== src/Client/Order.antt =====
-- The writer task of src/client.rs writes the frames in the order in which they were issued.
use usbip_macos.Prelude.{
  ℕ, ◌*◌, ◌≡◌, refl, ◌∙◌, subst, Bool, inl, inr, Bool-cases, ◌&&◌, List, [], ◌∷◌, ◌++◌,
  append_assoc, length, ltb, Result, ok, err,
}
use usbip_macos.Wire.{Writer, IoError}
use usbip_macos.Client.State.{Shared}
use usbip_macos.Client.Session.{is_some_reason}
use usbip_macos.Client.Send.{
  fill_batch, write_batch, Round, waits, goes_on, ends, write_frames, write_next, write_round,
}

abbrev pub concat : List (List ℕ) → List ℕ
concat [] = []
concat (f ∷ fs) = f ++ concat fs

concat-append : (fs gs : List (List ℕ)) → concat (fs ++ gs) ≡ concat fs ++ concat gs
concat-append [] gs = refl
concat-append (f ∷ fs) gs = rw (concat-append fs gs, append_assoc f (concat fs) (concat gs))

-- No byte is lost, repeated or moved.
fill_batch-concat :
    (batch : List ℕ) (frames : List (List ℕ))
    → (fill_batch batch frames).0 ++ concat (fill_batch batch frames).1 ≡ batch ++ concat frames
unfolding fill_batch
fill_batch-concat batch [] = refl
fill_batch-concat batch (f ∷ frames) = elim (Bool-cases (ltb (length batch) (256 * 1024))) [
  | inl short ↦
      rw short (fill_batch-concat (batch ++ f) frames ∙ append_assoc batch f (concat frames))
  | inr full ↦ rw full
]

extend-order :
    (a b : List ℕ) (frames issued more : List (List ℕ))
    → a ++ concat frames ≡ b ++ concat issued
    → a ++ concat (frames ++ more) ≡ b ++ concat (issued ++ more)
extend-order a b frames issued more e = rw (
  concat-append frames more,
  concat-append issued more,
  ← append_assoc a (concat frames) (concat more),
  e,
  append_assoc b (concat issued) (concat more),
)

module _ {W : Type 0} ⦃wr : Writer W⦄ where
  open wr use {write_all, written, write_all_ok}

  -- The batch of a round and what it leaves are the frames that were there.
  write_batch-order :
      (w w' : W) (f : List ℕ) (frames : List (List ℕ))
      → (write_batch w f frames).0 ≡ ok w'
      → written w' ++ concat (write_batch w f frames).1 ≡ written w ++ concat (f ∷ frames)
  unfolding write_batch
  write_batch-order w w' f frames e = rw (
    write_all_ok (fill_batch f frames).0 w w' e,
    append_assoc (written w) (fill_batch f frames).0 (concat (fill_batch f frames).1),
    fill_batch-concat f frames,
  )

  abbrev Preserves : W → List (List ℕ) → Round W → Type 0
  Preserves w frames (goes_on w' s') = written w' ++ concat s'.frames ≡ written w ++ concat frames
  Preserves w frames waits = Unit
  Preserves w frames (ends w' s') = Unit

  -- `more` is what other threads issue during the round.
  write_frames-Preserves :
      (meanwhile : Shared → Shared) (more : List (List ℕ))
      → ((t : Shared) → (meanwhile t).frames ≡ t.frames ++ more)
      → (w : W) (s : Shared) (frames left : List (List ℕ)) (r : Result IoError W)
      → ((w' : W) → r ≡ ok w' → written w' ++ concat left ≡ written w ++ concat frames)
      → Preserves w (frames ++ more) (write_frames meanwhile w s r left)
  unfolding write_frames
  write_frames-Preserves meanwhile more adds w s frames left (ok w') h = rw (
    adds (record s { frames = left }),
    concat-append left more,
    concat-append frames more,
    ← append_assoc (written w') (concat left) (concat more),
    h w' refl,
    append_assoc (written w) (concat frames) (concat more),
  )
  write_frames-Preserves meanwhile more adds w s frames left (err e) h = _

  write_next-Preserves :
      (meanwhile : Shared → Shared) (more : List (List ℕ))
      → ((t : Shared) → (meanwhile t).frames ≡ t.frames ++ more)
      → (w : W) (s : Shared) (frames : List (List ℕ))
      → Preserves w (frames ++ more) (write_next meanwhile w s frames)
  unfolding write_next
  write_next-Preserves meanwhile more adds w s [] = _
  write_next-Preserves meanwhile more adds w s (f ∷ frames) =
      write_frames-Preserves meanwhile more adds w s (f ∷ frames) (write_batch w f frames).1
        (write_batch w f frames).0 (λ w' e. write_batch-order w w' f frames e)

  write_round-Preserves :
      (sees_closed : Bool) (meanwhile : Shared → Shared) (more : List (List ℕ))
      → ((t : Shared) → (meanwhile t).frames ≡ t.frames ++ more)
      → (w : W) (s : Shared)
      → Preserves w (s.frames ++ more) (write_round sees_closed meanwhile w s)
  unfolding write_round
  write_round-Preserves sees_closed meanwhile more adds w s =
      elim (Bool-cases (sees_closed && is_some_reason s.closed_tx)) [
        | inl stop ↦ rw stop _
        | inr go ↦ rw go (write_next-Preserves meanwhile more adds w s s.frames)
      ]

  -- A run of the writer task: rounds of its loop, and frames that other threads issue before and
  -- during them. `issued` is all that was issued, in order.
  pub data Run (w0 : W) : W → Shared → List (List ℕ) → Type 0 where
    begins : (s : Shared) → s.frames ≡ [] → Run w0 w0 s []
    issues :
        {w : W} {s : Shared} {issued : List (List ℕ)}
        → Run w0 w s issued
        → (s' : Shared) (more : List (List ℕ)) → s'.frames ≡ s.frames ++ more
        → Run w0 w s' (issued ++ more)
    writes :
        {w : W} {s : Shared} {issued : List (List ℕ)}
        → Run w0 w s issued
        → (sees_closed : Bool) (meanwhile : Shared → Shared) (more : List (List ℕ))
        → ((t : Shared) → (meanwhile t).frames ≡ t.frames ++ more)
        → (w' : W) (s' : Shared) → write_round sees_closed meanwhile w s ≡ goes_on w' s'
        → Run w0 w' s' (issued ++ more)

  -- What was written, then what waits in the channel, is what was issued, in the order of issue:
  -- no frame is lost, repeated or overtaken.
  pub Run-order :
      (w0 : W) {w : W} {s : Shared} {issued : List (List ℕ)}
      → Run w0 w s issued
      → written w ++ concat s.frames ≡ written w0 ++ concat issued
  Run-order w0 (begins s e) = rw e
  Run-order w0 (issues {w = w} {s = t} {issued = before} run s more e) =
      rw e (extend-order (written w) (written w0) t.frames before more (Run-order w0 run))
  Run-order w0 (writes {w = v} {s = t} {issued = before} run c meanwhile more adds w s e) =
      subst (Preserves v (t.frames ++ more)) e (write_round-Preserves c meanwhile more adds v t)
      ∙ extend-order (written v) (written w0) t.frames before more (Run-order w0 run)
