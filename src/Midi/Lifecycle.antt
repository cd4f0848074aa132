-- ===== src/Midi/Lifecycle.antt =====
-- `close` and the collection of a handle, in luaportmidi/luaportmidi.c.
use lua2sc.Prelude.{
  ℕ, zero, suc, ◌≡◌, ◌≢◌, refl, sym, ap, ◌∙◌, arith, ℤ, pos, negsuc, List, some, Bool, true, false,
  get_elem?, if◌then◌else◌, inl, inr, Bool-cases,
}
use lua2sc.Midi.Port.{PortMidi}
use lua2sc.Midi.Core.{
  Midi, Called, nothing, raised, State, gc_entry, close_entry, registered, with_midi, close,
  is_zero,
}

pub is_zero-pos : (z : ℤ) → is_zero z ≡ true → z ≡ pos 0
unfolding is_zero
is_zero-pos z h = ground arith

pub is_zero-false : (z : ℤ) → (z ≡ pos 0 → ⊥) → is_zero z ≡ false
unfolding is_zero
is_zero-false (pos zero) h = absurd (h refl)
is_zero-false (pos (suc n)) h = refl
is_zero-false (negsuc n) h = refl

module _ {A : Type 0} (b : Bool) (x y : A) where
  if-true : b ≡ true → (if b then x else y) ≡ x
  if-true h = rw h

  if-false : b ≡ false → (if b then x else y) ≡ y
  if-false h = rw h

-- A call on a handle that stands for a stream.
pub with_midi-found :
    (p : PortMidi) (s : State p) (h : ℕ) (d : Midi p.Stream) (body : Midi p.Stream → Called p)
    → get_elem? s.handles h ≡ some d
    → with_midi p s h body ≡ body d
unfolding with_midi
with_midi-found p s h d body found = rw (with_midi, found)

module _ (p : PortMidi) where
  -- A `close` that leaves nothing on the stack had no error, and changed the library's state only.
  close-nothing :
      (d : Midi p.Stream) (s s' : State p)
      → close p d s ≡ (nothing, s')
      → (p.pm_close d.stream s.world ≡ (pos 0, s'.world)) × (s'.handles ≡ s.handles)
  unfolding close
  close-nothing d s s' h = go (p.pm_close d.stream s.world) refl h
    where
      go :
          (r : ℤ × p.World)
          → p.pm_close d.stream s.world ≡ r
          → ◌≡◌ {A = Called p}
              (if is_zero r.0
                then (nothing, record s { world = r.1 })
                else (raised d.device (p.error_text r.0), record s { world = r.1 }))
              (nothing, s')
          → (p.pm_close d.stream s.world ≡ (pos 0, s'.world)) × (s'.handles ≡ s.handles)
      go (err, w) e = elim (Bool-cases (is_zero err)) [
        | inl ok ↦ λ f.
            let z : err ≡ pos 0 = is_zero-pos err ok in
            let same : ◌≡◌ {A = Called p} (nothing, record s { world = w }) (nothing, s') =
              sym (if-true _ _ _ ok) ∙ f in
            let states : record s { world = w } ≡ s' = cc in
            (
              e ∙ ap (λ (t : ℤ). (t, w)) z ∙ ap (λ (t : State p). (pos 0, t.world)) states,
              ap (λ (t : State p). t.handles) (sym states),
            )
        | inr failed ↦ λ f.
            let fell : ◌≡◌ {A = Called p}
                (raised d.device (p.error_text err), record s { world = w }) (nothing, s') =
              sym (if-false _ _ _ failed) ∙ f in
            let replies : raised d.device (p.error_text err) ≡ nothing =
              ap (λ (t : Called p). t.0) fell in
            cc
      ]

  -- A `close` whose call of the library fails raises the error.
  close-raised :
      (d : Midi p.Stream) (s : State p) (hs : List (Midi p.Stream)) (e : ℤ) (w : p.World)
      → p.pm_close d.stream s.world ≡ (e, w)
      → e ≢ pos 0
      → s.handles ≡ hs
      → close p d s ≡ (raised d.device (p.error_text e), record { world = w; handles = hs })
  unfolding close
  close-raised d s hs e w h wrong same = rw h (rw (is_zero-false e wrong) (rw same))

-- A `close` that succeeded closed the stream without an error. Where the library answers a second
-- closing of that stream, in the state after, with an error code other than 0, the collection of the
-- handle raises the Lua error that names the code.
pub gc-close :
    (p : PortMidi) (h : ℕ) (d : Midi p.Stream) (s s' : State p) (e : ℤ) (w : p.World)
    → get_elem? s.handles h ≡ some d
    → registered p (close_entry h) s ≡ (nothing, s')
    → p.pm_close d.stream s'.world ≡ (e, w)
    → e ≢ pos 0
    → (p.pm_close d.stream s.world ≡ (pos 0, s'.world))
      × (registered p (gc_entry h) s'
          ≡ (raised d.device (p.error_text e), record { world = w; handles = s.handles }))
unfolding registered
gc-close p h d s s' e w found closed second wrong =
    let by_close : close p d s ≡ (nothing, s') =
      sym (with_midi-found p s h d (λ d. close p d s) found) ∙ closed in
    let (first, same) = close-nothing p d s s' by_close in
    let found' : get_elem? s'.handles h ≡ some d = rw same found in
    (
      first,
      with_midi-found p s' h d (λ d. close p d s') found'
          ∙ close-raised p d s' s.handles e w second wrong same,
    )
