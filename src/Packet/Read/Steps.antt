-- ===== src/Packet/Read/Steps.antt =====
-- What follows each call of oscpack_1_1_0/osc/OscReceivedElements.cpp, in the order of the calls of `Init`
-- and of the loop over the arguments.
use lua2sc.Prelude.{
  ℕ, ◌+◌, ◌<◌, ◌≡◌, arith, List, ◌∷◌, Option, none, some, true, false, length, drop, ◌==◌,
}
use lua2sc.Osc.Value.{Bytes, Result, ok, thrown, malformed_message, ◌>>=◌}
use lua2sc.Osc.Pack.{Argument, Received, message}
use lua2sc.Packet.Memory.{byte_at, c_string_at}
use lua2sc.Packet.Message.{TypeTags, check_tags, init_arguments, init_tags}
use lua2sc.Packet.Iterate.{Cursor, advance, read_argument, at_end, read_arguments, all_arguments}
use lua2sc.Packet.Read.Argument.{at_argument}

pub at_end_self : (q p : ℕ) → at_end (at_argument q p) q ≡ true
unfolding at_end
at_end_self q p = ground arith

pub at_end_later : (q p n : ℕ) → q < n → at_end (at_argument q p) n ≡ false
unfolding at_end
at_end_later q p n h = ground arith

module _ (m : Bytes) where
  abbrev pub after : ℕ → ℕ → ℕ → ℕ → ℕ → ℕ → Result (ℕ × ℕ)
  after k q end a l next = elim (next == 0) [
    | true ↦ ok (q + 1, l)
    | false ↦ check_tags k m (q + 1) a l end
  ]

  abbrev pub inner : ℕ → ℕ → ℕ → ℕ × ℕ → Result (ℕ × ℕ)
  inner k q end (a, l) = byte_at m (q + 1) >>= after k q end a l

  abbrev pub from_next : ℕ → ℕ → Argument → Cursor → Result (List Argument)
  from_next k n x next = read_arguments k m next n >>= λ rest. ok (x ∷ rest)

  abbrev pub from_first : ℕ → ℕ → ℕ → ℕ → Argument → Result (List Argument)
  from_first k n q p x = advance m (at_argument q p) >>= from_next k n x

  abbrev pub all_of : ℕ → ℕ → ℕ → ℕ → Result (List Argument)
  all_of k n q p = read_argument m (at_argument q p) >>= from_first k n q p

  abbrev pub level_test : ℕ → ℕ → ℕ × ℕ → Result (Option TypeTags)
  level_test comma arguments (tags_end, level) = elim (level == 0) [
    | true ↦
        ok (some (record { tags_begin = comma + 1; tags_end = tags_end; arguments = arguments }))
    | false ↦ thrown malformed_message
  ]

  abbrev pub from_slot : ℕ → ℕ → Option ℕ → Result (Option TypeTags)
  from_slot comma end q = elim q [
    | none ↦ thrown malformed_message
    | some arguments ↦
        check_tags (length m) m (comma + 1) arguments 0 end >>= level_test comma arguments
  ]

  abbrev pub from_second : ℕ → ℕ → ℕ → Result (Option TypeTags)
  from_second comma end c = elim (c == 0) [ true ↦ ok none | false ↦ init_arguments m comma end ]

  abbrev pub from_comma : ℕ → ℕ → ℕ → Result (Option TypeTags)
  from_comma comma end c = elim (c == b',') [
    | false ↦ thrown malformed_message
    | true ↦ byte_at m (comma + 1) >>= from_second comma end
  ]

  abbrev pub from_address : ℕ → Option ℕ → Result (Option TypeTags)
  from_address end q = elim q [
    | none ↦ thrown malformed_message
    | some comma ↦ init_tags m comma end
  ]

  abbrev pub from_found : ℕ → Option TypeTags → Result Received
  from_found p tags =
      c_string_at (drop p m) >>= λ address. all_arguments m tags >>= λ as'. ok (message address as')
