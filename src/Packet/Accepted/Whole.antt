-- ===== src/Packet/Accepted/Whole.antt =====
-- A message that `Init` of oscpack_1_1_0/osc/OscReceivedElements.cpp accepted, from its address to its
-- last argument.
use lua2sc.Prelude.{
  ℕ, ◌+◌, ◌≤◌, ◌≡◌, refl, subst, ◌∙◌, arith, List, [], Option, none, some, Bool, true, false,
  length, drop, ◌==◌,
}
use lua2sc.Osc.Value.{Bytes, Result, ok, thrown, ◌>>=◌, malformed_message}
use lua2sc.Osc.Pack.{Argument, message}
use lua2sc.Osc.Writes.{run_succeeds}
use lua2sc.Packet.Memory.{
  byte_at, find_str4_end_bounded, is_valid_size, is_multiple_of_4, c_string_at,
}
use lua2sc.Packet.Message.{TypeTags, check_tags, init_arguments, init_tags, init_message}
use lua2sc.Packet.Iterate.{all_arguments}
use lua2sc.Packet.Bundle.{read_message}
use lua2sc.Packet.Read.{bind-by}
use lua2sc.Packet.Read.Steps.{
  level_test, from_slot, from_second, from_comma, from_address, from_found,
}
use lua2sc.Packet.Accepted.{HasValue}
use lua2sc.Packet.Accepted.Text.{find_str4_end_bounded-some}
use lua2sc.Packet.Accepted.Message.{NoBlob, Walked, check_tags-Walked}

module _ (m : Bytes) where
  -- No type tag of a message is that of a blob.
  abbrev pub NoBlobs : Option TypeTags → Type 0
  NoBlobs none = Unit {0}
  NoBlobs (some tags) = NoBlob m tags.tags_begin tags.tags_end

  abbrev Readable : Option TypeTags → Type 0
  Readable tags = NoBlobs tags → HasValue (all_arguments m tags)

  -- The cases of the tests in `Init`, each where it returns.
  level_test-Readable :
      (comma a stop l : ℕ) (tags : Option TypeTags)
      → Walked m (comma + 1) a stop
      → level_test m comma a (stop, l) ≡ ok tags
      → Readable tags
  unfolding all_arguments
  level_test-Readable comma a stop l tags walked h = go (l == 0) h
    where
      announced : Option TypeTags
      announced = some (record { tags_begin = comma + 1; tags_end = stop; arguments = a })

      go :
          (b : Bool)
          → elim b [ true ↦ ok announced | false ↦ thrown malformed_message ] ≡ ok tags
          → Readable tags
      go true h =
          let same : announced ≡ tags = cc in
          subst Readable same
            (λ blobs. walked.reads blobs (length m) (omega (arith, walked.stopped)))
      go false h = cc

  init_arguments-Readable :
      (comma end : ℕ) (tags : Option TypeTags)
      → end ≤ length m
      → init_arguments m comma end ≡ ok tags
      → Readable tags
  unfolding init_arguments
  init_arguments-Readable comma end tags le h =
      let (q, searched, h₁) =
        run_succeeds (find_str4_end_bounded m comma end) (from_slot m comma end) h in
      go q h₁
    where
      go : (q : Option ℕ) → from_slot m comma end q ≡ ok tags → Readable tags
      go none h = cc
      go (some a) h =
          let ((stop, l), checked, h₁) =
            run_succeeds (check_tags (length m) m (comma + 1) a 0 end) (level_test m comma a) h in
          level_test-Readable comma a stop l tags
            (check_tags-Walked m (length m) (comma + 1) a 0 end stop l le checked) h₁

  without_tags : (tags : Option TypeTags) → ok none ≡ ok tags → Readable tags
  unfolding all_arguments
  without_tags none h = λ blobs. ([], refl)
  without_tags (some tags) h = cc

  init_tags-Readable :
      (comma end : ℕ) (tags : Option TypeTags)
      → end ≤ length m
      → init_tags m comma end ≡ ok tags
      → Readable tags
  unfolding init_tags
  init_tags-Readable comma end tags le h = at_comma (comma == end) h
    where
      at_second :
          (b : Bool)
          → elim b [ true ↦ ok none | false ↦ init_arguments m comma end ] ≡ ok tags
          → Readable tags
      at_second true h = without_tags tags h
      at_second false h = init_arguments-Readable comma end tags le h

      at_first :
          (b : Bool)
          → elim b [
            | false ↦ thrown malformed_message
            | true ↦ byte_at m (comma + 1) >>= from_second m comma end
          ]
            ≡ ok tags
          → Readable tags
      at_first false h = cc
      at_first true h =
          let (c, there, h₁) = run_succeeds (byte_at m (comma + 1)) (from_second m comma end) h in
          at_second (c == 0) h₁

      at_comma :
          (b : Bool)
          → elim b [ true ↦ ok none | false ↦ byte_at m comma >>= from_comma m comma end ] ≡ ok tags
          → Readable tags
      at_comma true h = without_tags tags h
      at_comma false h =
          let (c, there, h₁) = run_succeeds (byte_at m comma) (from_comma m comma end) h in
          at_first (c == b',') h₁

  -- What `Init` accepted: an address that can be read, then type tags.
  init_message-ok :
      (p size : ℕ) (tags : Option TypeTags)
      → init_message m p size ≡ ok tags
      → HasValue (c_string_at (drop p m)) × ((comma : ℕ) × (init_tags m comma (p + size) ≡ ok tags))
  unfolding init_message
  init_message-ok p size tags h = go (is_valid_size size) (size == 0) (is_multiple_of_4 size) h
    where
      Search : Result (Option TypeTags)
      Search = find_str4_end_bounded m p (p + size) >>= from_address m (p + size)

      found :
          (q : Option ℕ)
          → find_str4_end_bounded m p (p + size) ≡ ok q
          → from_address m (p + size) q ≡ ok tags
          → HasValue (c_string_at (drop p m))
            × ((comma : ℕ) × (init_tags m comma (p + size) ≡ ok tags))
      found none searched h = cc
      found (some comma) searched h =
          let (_, address, _, _) = find_str4_end_bounded-some m p (p + size) comma searched in
          (address, (comma, h))

      go :
          (a b c : Bool)
          → elim a [
            | false ↦ thrown malformed_message
            | true ↦ elim b [
              | true ↦ thrown malformed_message
              | false ↦ elim c [ false ↦ thrown malformed_message | true ↦ Search ]
            ]
          ]
            ≡ ok tags
          → HasValue (c_string_at (drop p m))
            × ((comma : ℕ) × (init_tags m comma (p + size) ≡ ok tags))
      go false b c h = cc
      go true true c h = cc
      go true false false h = cc
      go true false true h =
          let (q, searched, h₁) =
            run_succeeds (find_str4_end_bounded m p (p + size)) (from_address m (p + size)) h in
          found q searched h₁

  -- Whatever bytes a message consists of: where it stands inside the memory that was received, `Init`
  -- accepts it, and no type tag that it announces is that of a blob, its address and all of its
  -- arguments are read, and no read leaves the memory.
  pub read_message-accepted :
      (p size : ℕ) (tags : Option TypeTags)
      → p + size ≤ length m
      → init_message m p size ≡ ok tags
      → NoBlobs tags
      → (a : Bytes) × (as' : List Argument) × (read_message m p size ≡ ok (message a as'))
  unfolding read_message
  read_message-accepted p size tags le h blobs =
      let ((a, address), (comma, rest)) = init_message-ok p size tags h in
      let (as', shown) = init_tags-Readable comma (p + size) tags le rest blobs in
      (
        a,
        as',
        bind-by (from_found m p) h
            ∙ bind-by (λ address. all_arguments m tags >>= λ as'. ok (message address as')) address
            ∙ bind-by (λ as'. ok (message a as')) shown,
      )
