-- ===== src/Packet/Written/Message.antt =====
-- The writes of a message in oscpack_1_1_0/osc/OscOutboundPacketStream.cpp.
use lua2sc.Prelude.{
  suc, reverse-append, ℕ, ◌+◌, ◌≤◌, ◌≡◌, refl, sym, ap, ◌∙◌, arith, List, [], ◌∷◌, ◌++◌, map,
  append_assoc, append-nil, length, length-append, reverse,
}
use lua2sc.Osc.Value.{Bytes, ok}
use lua2sc.Osc.Pack.{Argument, Item, argument, begin_message, end_message, message}
use lua2sc.Osc.Meaning.{flatten}
use lua2sc.Osc.Writes.{write_all}
use lua2sc.Packet.Order.{round_up4}
use lua2sc.Packet.Outbound.{Outbound, with_space}
use lua2sc.Packet.Arguments.{put_argument}
use lua2sc.Packet.Write.{put}
use lua2sc.Packet.Layout.{
  padded, argument_tag, argument_bytes, arguments_bytes, message_bytes, length-padded,
  length-reverse,
}
use lua2sc.Packet.Grown.{with_space-ok, framed, open_slot, IsOpen, IsResting}
use lua2sc.Packet.Step.{
  IsWritten, pushed, pushed_space, put_argument-IsWritten, slot_size, in_progress, with_more,
  put_begin_message-IsResting, put_end_message-in_progress, length-framed, length-open_slot,
}
use lua2sc.Packet.Wire.{oscpack}
use lua2sc.Packet.Written.{with_space-fits, Exactly, write_all-cons, write_all-step}

abbrev pub AreWritten : List Argument → Type 0
AreWritten [] = Unit {0}
AreWritten (a ∷ as') = IsWritten a × AreWritten as'

-- The size of the stream once a message has these arguments.
abbrev message_size : Outbound → Bytes → List Argument → ℕ
message_size s a as' = length s.body + slot_size s.element + length (message_bytes a as')

map-snoc :
    (done : List Argument) (x : Argument)
    → map argument_tag (done ++ x ∷ []) ≡ map argument_tag done ++ argument_tag x ∷ []
map-snoc [] x = refl
map-snoc (a ∷ done) x = ap (λ ts. argument_tag a ∷ ts) (map-snoc done x)

tags-snoc :
    (done : List Argument) (x : Argument)
    → reverse (map argument_tag (done ++ x ∷ [])) ≡ argument_tag x ∷ reverse (map argument_tag done)
tags-snoc done x =
    ap reverse (map-snoc done x) ∙ reverse-append (map argument_tag done) (argument_tag x ∷ [])

arguments_bytes-append :
    (done as' : List Argument)
    → arguments_bytes (done ++ as') ≡ arguments_bytes done ++ arguments_bytes as'
arguments_bytes-append [] as' = refl
arguments_bytes-append (a ∷ done) as' =
    ap (λ b. argument_bytes a ++ b) (arguments_bytes-append done as')
    ∙ sym (append_assoc (argument_bytes a) (arguments_bytes done) (arguments_bytes as'))

bytes-snoc :
    (done : List Argument) (x : Argument)
    → arguments_bytes (done ++ x ∷ []) ≡ arguments_bytes done ++ argument_bytes x
bytes-snoc done x =
    arguments_bytes-append done (x ∷ [])
    ∙ ap (λ b. arguments_bytes done ++ b) (append-nil (argument_bytes x))

pub length-map : (done : List Argument) → length (map argument_tag done) ≡ length done
length-map [] = refl
length-map (a ∷ done) = ap suc (length-map done)

pub length-message_bytes :
    (a : Bytes) (done : List Argument)
    → length (message_bytes a done)
      ≡ length (padded a) + round_up4 (length done + 2) + length (arguments_bytes done)
length-message_bytes a done =
    let tags = b',' ∷ map argument_tag done in
    omega (
      arith,
      length-append (padded a) (padded tags ++ arguments_bytes done),
      length-append (padded tags) (arguments_bytes done),
      length-padded tags,
      length-map done,
    )

module _ (c : ℕ) (s : Outbound) (a : Bytes) where
  pushed-in_progress :
      (done : List Argument) (x : Argument)
      → pushed x (in_progress s a done) ≡ in_progress s a (done ++ x ∷ [])
  pushed-in_progress done x = rw (tags-snoc done x, bytes-snoc done x, append_assoc) refl

  pushed_space-in_progress :
      (done : List Argument) (x : Argument)
      → pushed_space x (in_progress s a done) ≡ message_size s a (done ++ x ∷ [])
  pushed_space-in_progress done x =
      let start = s.body ++ (open_slot s.element ++ padded a) in
      omega (
        arith,
        length-append start (arguments_bytes done),
        length-append s.body (open_slot s.element ++ padded a),
        length-append (open_slot s.element) (padded a),
        length-open_slot s.element,
        length-reverse (map argument_tag done),
        length-map done,
        length-message_bytes a (done ++ x ∷ []),
        length-append done (x ∷ []),
        ap length (bytes-snoc done x),
        length-append (arguments_bytes done) (argument_bytes x),
      )

  argument_step :
      (done : List Argument) (x : Argument)
      → IsWritten x
      → put (argument x) (in_progress s a done)
        ≡ with_space
            (message_size s a (done ++ x ∷ []))
            (in_progress s a done)
            (in_progress s a (done ++ x ∷ []))
  unfolding put
  argument_step done x w =
      put_argument-IsWritten x (in_progress s a done) w
      ∙ ap (λ n. with_space n (in_progress s a done) (pushed x (in_progress s a done)))
          (pushed_space-in_progress done x)
      ∙ ap (with_space (message_size s a (done ++ x ∷ [])) (in_progress s a done))
          (pushed-in_progress done x)

  -- There is room for the message with these arguments.
  abbrev Room : List Argument → Type 0
  Room as' = message_size s a as' ≤ s.capacity

  snoc : (done as' : List Argument) (x : Argument) → (done ++ x ∷ []) ++ as' ≡ done ++ x ∷ as'
  snoc done as' x = append_assoc done (x ∷ []) as'

  pub put_argument-ok : (x : Argument) (t t' : Outbound) → put (argument x) t ≡ ok t' → IsWritten x
  unfolding put put_argument
  put_argument-ok (Argument.unknown x) t t' h = cc
  put_argument-ok (Argument.int32 x) t t' h = tt
  put_argument-ok (Argument.int64 x) t t' h = tt
  put_argument-ok (Argument.float x) t t' h = tt
  put_argument-ok (Argument.double x) t t' h = tt
  put_argument-ok (Argument.char x) t t' h = tt
  put_argument-ok (Argument.rgba_color x) t t' h = tt
  put_argument-ok (Argument.midi_message x) t t' h = tt
  put_argument-ok (Argument.time_tag x) t t' h = tt
  put_argument-ok (Argument.string x) t t' h = tt
  put_argument-ok (Argument.symbol x) t t' h = tt
  put_argument-ok (Argument.blob x) t t' h = tt
  put_argument-ok (Argument.boolean x) t t' h = tt
  put_argument-ok Argument.nil t t' h = tt
  put_argument-ok Argument.infinitum t t' h = tt
  put_argument-ok Argument.array_begin t t' h = tt
  put_argument-ok Argument.array_end t t' h = tt

  arguments_sound :
      (as' done : List Argument) (rest : List Item) (t : Outbound)
      → write_all (oscpack c) (map argument as' ++ rest) (in_progress s a done) ≡ ok t
      → Room done
      → (write_all (oscpack c) rest (in_progress s a (done ++ as')) ≡ ok t)
        × AreWritten as'
        × Room (done ++ as')
  arguments_sound [] done rest t h room = rw (append-nil done) (h, tt, room)
  arguments_sound (x ∷ as') done rest t h room =
      let (s₁, h₁, h₂) =
        write_all-cons c (argument x) (map argument as' ++ rest) (in_progress s a done) t h in
      let w = put_argument-ok x (in_progress s a done) s₁ h₁ in
      let (room', e) =
        with_space-ok (message_size s a (done ++ x ∷ [])) (in_progress s a done)
          (in_progress s a (done ++ x ∷ [])) s₁ (sym (argument_step done x w) ∙ h₁) in
      let (h₃, w', room₃) =
        arguments_sound as' (done ++ x ∷ []) rest t
          (ap (write_all (oscpack c) (map argument as' ++ rest)) (sym e) ∙ h₂) room' in
      (
        ap (λ l. write_all (oscpack c) rest (in_progress s a l)) (sym (snoc done as' x)) ∙ h₃,
        (w, w'),
        rw (snoc done as' x) at room₃,
      )

  -- The message only grows.
  grows :
      (as' done : List Argument) (x : Argument)
      → message_size s a (done ++ x ∷ []) ≤ message_size s a ((done ++ x ∷ []) ++ as')
  grows as' done x =
      let so_far = done ++ x ∷ [] in
      omega (
        arith,
        length-message_bytes a so_far,
        length-message_bytes a (so_far ++ as'),
        length-append so_far as',
        ap length (arguments_bytes-append so_far as'),
        length-append (arguments_bytes so_far) (arguments_bytes as'),
      )

  arguments_complete :
      (as' done : List Argument) (rest : List Item)
      → AreWritten as'
      → Room (done ++ as')
      → write_all (oscpack c) (map argument as' ++ rest) (in_progress s a done)
        ≡ write_all (oscpack c) rest (in_progress s a (done ++ as'))
  arguments_complete [] done rest w room = rw (append-nil done) refl
  arguments_complete (x ∷ as') done rest w room =
      let now = in_progress s a done in
      let next = in_progress s a (done ++ x ∷ []) in
      let room' : Room ((done ++ x ∷ []) ++ as') = rw (snoc done as' x) room in
      let fits : Room (done ++ x ∷ []) = omega (arith, grows as' done x, room') in
      write_all-step c (argument x) (map argument as' ++ rest) now next (
        argument_step done x w.0
        ∙ with_space-fits (message_size s a (done ++ x ∷ [])) now next fits)
      ∙ arguments_complete as' (done ++ x ∷ []) rest w.1 room'
      ∙ ap (λ l. write_all (oscpack c) rest (in_progress s a l)) (snoc done as' x)

  module _ (resting : IsResting s) (opened : IsOpen s.element (length s.body)) where
    begin_step : put (begin_message a) s ≡ with_space (message_size s a []) s (in_progress s a [])
    unfolding put
    begin_step =
        let same : length s.body + slot_size s.element + length (padded a) + 4
            ≡ message_size s a [] =
          omega (arith, length-message_bytes a []) in
        put_begin_message-IsResting a s resting ∙ ap (λ n. with_space n s (in_progress s a [])) same

    end_step :
        (as' : List Argument)
        → put end_message (in_progress s a as')
          ≡ ok (with_more (framed s.element (message_bytes a as')) s)
    unfolding put
    end_step as' = put_end_message-in_progress s a as' resting opened

    -- A message is written, between messages, exactly when its arguments can be and it fits.
    pub message-Exactly :
        (as' : List Argument)
        → Exactly c
            (AreWritten as')
            (flatten (message a as'))
            s
            (framed s.element (message_bytes a as'))
    unfolding flatten
    message-Exactly as' = record {
      sound = λ t h.
          let (s₁, h₁, h₂) =
            write_all-cons c (begin_message a) (map argument as' ++ end_message ∷ []) s t h in
          let (room, e) =
            with_space-ok (message_size s a []) s (in_progress s a []) s₁ (sym begin_step ∙ h₁) in
          let (h₃, w, room') =
            arguments_sound as' [] (end_message ∷ []) t
              (ap (write_all (oscpack c) (map argument as' ++ end_message ∷ [])) (sym e) ∙ h₂)
              room in
          let written =
            write_all-step c end_message [] (in_progress s a as')
              (with_more (framed s.element (message_bytes a as')) s) (end_step as') in
          let same : ok t ≡ ok (with_more (framed s.element (message_bytes a as')) s) =
            sym h₃ ∙ written in
          (cc, w, omega (arith, length-framed s.element (message_bytes a as'), room'));
      complete = λ w fits.
          let whole : Room as' =
            omega (arith, length-framed s.element (message_bytes a as'), fits) in
          let start : Room [] =
            omega (arith, whole, length-message_bytes a [], length-message_bytes a as') in
          write_all-step c (begin_message a) (map argument as' ++ end_message ∷ []) s
            (in_progress s a [])
            (begin_step ∙ with_space-fits (message_size s a []) s (in_progress s a []) start)
          ∙ arguments_complete as' [] (end_message ∷ []) w whole
          ∙ write_all-step c end_message [] (in_progress s a as')
              (with_more (framed s.element (message_bytes a as')) s) (end_step as');
    }
