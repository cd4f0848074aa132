-- ===== src/Midi/Opening.antt =====
-- What a handle that `OpenInput` or `OpenOutput` of luaportmidi/luaportmidi.c returned stands for.
use lua2sc.Prelude.{
  ℕ, ◌≡◌, refl, ap, ◌∙◌, sym, subst, ℤ, pos, List, [], ◌∷◌, ◌++◌, some, Bool, true, false, length,
  get_elem?, if◌then◌else◌,
}
use lua2sc.Midi.Port.{PortMidi}
use lua2sc.Midi.Core.{
  Midi, created, Called, State, Fields, Method, open_input_entry, open_output_entry, read_entry,
  poll_entry, write_short_entry, registered, opened_with, open_input_lua, open_output_lua, nil_text,
  is_zero, read, poll, write_short,
}
use lua2sc.Midi.Lifecycle.{is_zero-pos, with_midi-found}
use lua2sc.Midi.Sent.{Sends, short_message, write_short-Sends}
use lua2sc.Midi.Handles.{after_calls, after_calls-handle}

get_elem?-append_last :
    {A : Type 0} (xs : List A) (y : A) → get_elem? (xs ++ y ∷ []) (length xs) ≡ some y
get_elem?-append_last [] y = refl
get_elem?-append_last (x ∷ xs) y = get_elem?-append_last xs y

module _ (p : PortMidi) where
  abbrev stands_for : ℤ → p.Stream → Midi p.Stream
  stands_for device stream = record { device = device; stream = stream }

  -- A handle comes only from an opening without an error, and stands for its stream.
  opened_with-created :
      (device : ℤ) (r : ℤ × p.Stream × p.World) (s s' : State p) (h : ℕ)
      → opened_with p device r s ≡ (created h, s')
      → (stream : p.Stream) × (r ≡ (pos 0, stream, s'.world))
        × (get_elem? s'.handles h ≡ some (stands_for device stream))
  unfolding opened_with
  opened_with-created device (err, stream, w) s s' h e = go (is_zero err) refl e
    where
      go :
          (b : Bool)
          → is_zero err ≡ b
          → ◌≡◌ {A = Called p}
              (if b
                then (
                  created (length s.handles),
                  record { world = w; handles = s.handles ++ stands_for device stream ∷ [] },
                )
                else (nil_text device (p.error_text err), record s { world = w }))
              (created h, s')
          → (stream' : p.Stream) × (◌≡◌ {A = ℤ × p.Stream × p.World}
              (err, stream, w)
              (pos 0, stream', s'.world))
            × (get_elem? s'.handles h ≡ some (stands_for device stream'))
      go true z f =
          let same_world : w ≡ s'.world = cc in
          let same_handle : length s.handles ≡ h = cc in
          let same_handles : s.handles ++ stands_for device stream ∷ [] ≡ s'.handles = cc in
          let no_error : err ≡ pos 0 = is_zero-pos err z in
          (
            stream,
            cc,
            (ap (λ hs. get_elem? hs h) (sym same_handles)
                ∙ ap (get_elem? _) (sym same_handle)
                ∙ get_elem?-append_last s.handles (stands_for device stream)),
          )
      go false z f = cc

  module _ (device : ℤ) (ms : List (Method p)) (s s' : State p) (h : ℕ) where
    -- Where `OpenOutput` returned the handle `h`: the library opened a stream without an error, and after
    -- any further calls, those that close handles included, `writeShort` on `h` writes the message of its
    -- table, the status byte and the second and third byte, to that stream, keeps the handles, and leaves
    -- nothing on the stack or the text of the library's error.
    pub open_output-write_short :
        (fs : Fields)
        → registered p (open_output_entry device) s ≡ (created h, s')
        → (stream : p.Stream) × (p.open_output device s.world ≡ (pos 0, stream, s'.world))
          × Sends p
              (stands_for device stream)
              (short_message p fs)
              (after_calls p ms s')
              (registered p (write_short_entry h fs) (after_calls p ms s'))
    unfolding registered open_output_lua
    open_output-write_short fs e =
        let (stream, opened, stands) =
          opened_with-created device (p.open_output device s.world) s s' h e in
        let d = stands_for device stream in
        let later = after_calls p ms s' in
        (
          stream,
          opened,
          subst (Sends p d (short_message p fs) later)
              (sym (
                with_midi-found p later h d (λ d. write_short p fs d later)
                  (after_calls-handle p ms s' h d stands)))
              (write_short-Sends p d later fs),
        )

    -- Where `OpenInput` returned the handle `h`: the library opened a stream without an error, and after
    -- any further calls, those that close handles included, `poll` and `read` on `h` ask that stream.
    pub open_input-read :
        registered p (open_input_entry device) s ≡ (created h, s')
        → (stream : p.Stream) × (p.open_input device s.world ≡ (pos 0, stream, s'.world))
          × (registered p (poll_entry h) (after_calls p ms s')
              ≡ poll p (stands_for device stream) (after_calls p ms s'))
          × (registered p (read_entry h) (after_calls p ms s')
              ≡ read p (stands_for device stream) (after_calls p ms s'))
    unfolding registered open_input_lua
    open_input-read e =
        let (stream, opened, stands) =
          opened_with-created device (p.open_input device s.world) s s' h e in
        let d = stands_for device stream in
        let later = after_calls p ms s' in
        let found = after_calls-handle p ms s' h d stands in
        (
          stream,
          opened,
          with_midi-found p later h d (λ d. poll p d later) found,
          with_midi-found p later h d (λ d. read p d later) found,
        )
