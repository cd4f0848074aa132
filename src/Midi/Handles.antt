-- ===== src/Midi/Handles.antt =====
-- What the functions of luaportmidi/luaportmidi.c do to the userdata, one call after another.
use lua2sc.Prelude.{
  ℕ, zero, suc, ◌≡◌, refl, ap, ◌∙◌, ℤ, List, [], ◌∷◌, ◌++◌, Option, none, some, Bool, true, false,
  length, get_elem?, if◌then◌else◌,
}
use lua2sc.Midi.Port.{PortMidi, DeviceInfo}
use lua2sc.Midi.Core.{
  Midi, Reply, created, State, Called, Method, list_devices_entry, open_input_entry,
  open_output_entry, gc_entry, close_entry, poll_entry, read_entry, write_short_entry, registered,
  with_midi, opened_with, open_input_lua, open_output_lua, close, poll, read, write_short,
  list_devices, list_from, is_zero, is_one, is_negative, status_byte, getfield, byte2, byte3,
}

get_elem?-append_some :
    {A : Type 0} (xs : List A) (y : A) (i : ℕ) {x : A}
    → get_elem? xs i ≡ some x
    → get_elem? (xs ++ y ∷ []) i ≡ some x
get_elem?-append_some [] y i e = cc
get_elem?-append_some (z ∷ xs) y zero e = e
get_elem?-append_some (z ∷ xs) y (suc i) e = get_elem?-append_some xs y i e

module _ (p : PortMidi) where
  -- A call keeps the userdata, or adds one at the end and returns its handle.
  data Extends (s : State p) : Called p → Type 0 where
    kept : {reply : Reply p.Stream} {s' : State p} → s'.handles ≡ s.handles → Extends s (reply, s')
    added :
        {s' : State p} (d : Midi p.Stream)
        → s'.handles ≡ s.handles ++ d ∷ []
        → Extends s (created (length s.handles), s')

  extended-handle :
      {s : State p} {c : Called p} (h : ℕ) (d : Midi p.Stream)
      → Extends s c
      → get_elem? s.handles h ≡ some d
      → get_elem? (c.1).handles h ≡ some d
  extended-handle h d (kept same) e = ap (λ hs. get_elem? hs h) same ∙ e
  extended-handle {s} h d (added d' one_more) e =
      ap (λ hs. get_elem? hs h) one_more ∙ get_elem?-append_some s.handles d' h e

  either_branch :
      (s : State p) (b : Bool) (x y : Called p)
      → Extends s x
      → Extends s y
      → Extends s (if b then x else y)
  either_branch s true x y hx hy = hx
  either_branch s false x y hx hy = hy

  with_midi-Extends :
      (s : State p) (h : ℕ) (body : Midi p.Stream → Called p)
      → ((d : Midi p.Stream) → Extends s (body d))
      → Extends s (with_midi p s h body)
  unfolding with_midi
  with_midi-Extends s h body each = found (get_elem? s.handles h)
    where
      found :
          (o : Option (Midi p.Stream))
          → Extends s (elim o [ none ↦ (Reply.invalid, s) | some d ↦ body d ])
      found none = kept refl
      found (some d) = each d

  opened_with-Extends :
      (device : ℤ) (r : ℤ × p.Stream × p.World) (s : State p) → Extends s (opened_with p device r s)
  unfolding opened_with
  opened_with-Extends device (err, stream, w) s =
      either_branch s (is_zero err) _ _ (added (record { device = device; stream = stream }) refl)
        (kept refl)

  list_devices-Extends : (s : State p) → Extends s (list_devices p s)
  unfolding list_devices
  list_devices-Extends s = shown (list_from p s.world (p.count_devices s.world) 0)
    where
      shown :
          (o : Option (List (ℕ × DeviceInfo)))
          → Extends s (elim o [ none ↦ (Reply.undefined, s) | some ds ↦ (Reply.devices ds, s) ])
      shown none = kept refl
      shown (some ds) = kept refl

  close-Extends : (d : Midi p.Stream) (s : State p) → Extends s (close p d s)
  unfolding close
  close-Extends d s =
      either_branch s (is_zero (p.pm_close d.stream s.world).0) _ _ (kept refl) (kept refl)

  -- Each registered function keeps the userdata, or adds one at the end and returns its handle.
  registered-Extends : (m : Method p) (s : State p) → Extends s (registered p m s)
  unfolding registered open_input_lua open_output_lua poll read write_short
  registered-Extends list_devices_entry s = list_devices-Extends s
  registered-Extends (open_input_entry device) s = opened_with-Extends device _ s
  registered-Extends (open_output_entry device) s = opened_with-Extends device _ s
  registered-Extends (gc_entry h) s = with_midi-Extends s h _ (λ d. close-Extends d s)
  registered-Extends (close_entry h) s = with_midi-Extends s h _ (λ d. close-Extends d s)
  registered-Extends (poll_entry h) s = with_midi-Extends s h _ λ d.
      either_branch s (is_one (p.pm_poll d.stream s.world).0) _ _ (kept refl)
        (either_branch s (is_zero (p.pm_poll d.stream s.world).0) _ _ (kept refl) (kept refl))
  registered-Extends (read_entry h) s = with_midi-Extends s h _ λ d.
      either_branch s (is_negative (p.pm_read d.stream s.world).0) _ _ (kept refl)
        (either_branch s (is_zero (p.pm_read d.stream s.world).0) _ _ (kept refl) (kept refl))
  registered-Extends (write_short_entry h fs) s = with_midi-Extends s h _ λ d.
      either_branch s
        (is_zero
          (p.pm_write_short d.stream
            (p.pm_message (status_byte fs) (getfield fs byte2 0) (getfield fs byte3 0)) s.world).0)
        _ _ (kept refl) (kept refl)

  -- Calls one after the other: the state at the end.
  unfoldable pub after_calls : List (Method p) → State p → State p
  after_calls [] s = s
  after_calls (m ∷ ms) s = after_calls ms (registered p m s).1

  -- Whatever functions are called, in any order and with any answers of the library, a handle stands
  -- for the device and the stream it was made for, also after it was closed.
  pub after_calls-handle :
      (ms : List (Method p)) (s : State p) (h : ℕ) (d : Midi p.Stream)
      → get_elem? s.handles h ≡ some d
      → get_elem? (after_calls ms s).handles h ≡ some d
  unfolding after_calls
  after_calls-handle [] s h d e = e
  after_calls-handle (m ∷ ms) s h d e =
      after_calls-handle ms (registered p m s).1 h d
        (extended-handle h d (registered-Extends m s) e)
