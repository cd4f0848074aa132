-- ===== src/Packet/Accepted/Safe.antt =====
-- Any message, as oscpack_1_1_0/osc/OscReceivedElements.cpp checks and reads it where it announces no
-- blob.
use lua2sc.Prelude.{
  ℕ, ◌+◌, ◌-◌, ◌%◌, ◌≤◌, ◌<◌, ◌≡◌, ◌≢◌, refl, sym, ap, subst, ◌∙◌, arith, List, Option, none, some,
  Bool, true, false, length, ◌==◌, ==_iff, bit_and,
}
use lua2sc.Osc.Value.{
  Bytes, Result, ok, lua_error, thrown, undefined, Exception, ◌>>=◌, malformed_message,
}
use lua2sc.Osc.Pack.{Argument, Received, message}
use lua2sc.Words.{bit_and_mask}
use lua2sc.Osc.Kept.{Kept, Kept-bind}
use lua2sc.Packet.Memory.{byte_at, find_str4_end_bounded, is_valid_size, is_multiple_of_4}
use lua2sc.Packet.Message.{check_tags, TypeTags, init_arguments, init_tags, init_message}
use lua2sc.Packet.Bundle.{read_message}
use lua2sc.Packet.Read.Steps.{
  level_test, from_slot, from_second, from_comma, from_address, from_found,
}
use lua2sc.Packet.Accepted.Search.{byte_at-Kept, Found, find_str4_end_bounded-Kept}
use lua2sc.Packet.Accepted.Whole.{NoBlobs, read_message-accepted}
use lua2sc.Packet.Accepted.Init.{NoBlobTag, check_tags-Kept}

ok_same : (c d : ℕ) → ok c ≡ ok d → c ≡ d
ok_same c d h = cc

module _ (m : Bytes) (blobs : NoBlobTag m) (end : ℕ) (within : end ≤ length m) where
  level_test-Kept :
      (comma a stop l : ℕ)
      → NoBlobs m (some (record { tags_begin = comma + 1; tags_end = stop; arguments = a }))
      → Kept (NoBlobs m) (level_test m comma a (stop, l))
  level_test-Kept comma a stop l none_there = go (l == 0)
    where
      announced : Option TypeTags
      announced = some (record { tags_begin = comma + 1; tags_end = stop; arguments = a })

      go :
          (b : Bool)
          → Kept (NoBlobs m) (elim b [ true ↦ ok announced | false ↦ thrown malformed_message ])
      go true = none_there
      go false = tt

  init_arguments-Kept :
      (comma : ℕ)
      → byte_at m comma ≡ ok b','
      → byte_at m (comma + 1) ≢ ok 0
      → comma ≤ end
      → (end - comma) % 4 ≡ 0
      → Kept (NoBlobs m) (init_arguments m comma end)
  unfolding init_arguments
  init_arguments-Kept comma begins starts le even =
      Kept-bind (Found m comma end) (NoBlobs m) (find_str4_end_bounded m comma end)
        (from_slot m comma end) (find_str4_end_bounded-Kept m comma end le within even) slot
    where
      apart : {z : ℕ} → comma ≤ z → z ≢ comma → z ≢ comma + 1 → comma + 1 < z
      apart from a b = ground arith

      -- The zero that ends the type tags is behind the first of them.
      later : (z : ℕ) → comma ≤ z → byte_at m z ≡ ok 0 → comma + 1 < z
      later z from ends =
          let not_comma : z ≢ comma = λ e.
            (let same : 0 ≡ b',' = ok_same 0 b',' (sym ends ∙ ap (byte_at m) e ∙ begins) in
              absurd (omega (arith, same))) in
          let not_next : z ≢ comma + 1 = λ e. starts (sym (ap (byte_at m) e) ∙ ends) in
          apart from not_comma not_next

      only_first : (j : ℕ) → comma < j → j < comma + 1 + 1 → byte_at m j ≢ ok 0
      only_first j from to =
          let same : comma + 1 ≡ j = omega (arith, from, to) in
          subst (λ j. byte_at m j ≢ ok 0) same starts

      slot : (q : Option ℕ) → Found m comma end q → Kept (NoBlobs m) (from_slot m comma end q)
      slot none k = tt
      slot (some a) k =
          let behind : comma + 1 < k.zero_at = later k.zero_at k.behind k.reads_zero in
          let inside : k.zero_at < end = omega (arith, k.before, k.inside.to) in
          Kept-bind _ (NoBlobs m) (check_tags (length m) m (comma + 1) a 0 end)
            (level_test m comma a)
            (check_tags-Kept m blobs comma end k.zero_at begins within inside k.reads_zero
              (length m) (comma + 1) a 0 (omega arith) behind only_first k.inside.to
              k.inside.aligned (omega (arith, inside, within)))
            λ (stop, l) none_there. level_test-Kept comma a stop l none_there

  init_tags-Kept :
      (comma : ℕ) → comma ≤ end → (end - comma) % 4 ≡ 0 → Kept (NoBlobs m) (init_tags m comma end)
  unfolding init_tags
  init_tags-Kept comma le even = at_comma (comma == end) refl
    where
      at_second :
          (c : ℕ)
          → byte_at m comma ≡ ok b','
          → byte_at m (comma + 1) ≡ ok c
          → (b : Bool) → (c == 0) ≡ b
          → Kept (NoBlobs m) (elim b [ true ↦ ok none | false ↦ init_arguments m comma end ])
      at_second c begins there true e = tt
      at_second c begins there false e =
          let positive : 0 < c = ground arith in
          init_arguments-Kept comma begins
            (λ f.
              (let same : c ≡ 0 = ok_same c 0 (sym there ∙ f) in
                absurd (omega (arith, same, positive))))
            le even

      first_byte :
          (c : ℕ)
          → comma < end
          → byte_at m comma ≡ ok c
          → (b : Bool) → (c == b',') ≡ b
          → Kept (NoBlobs m) (elim b [
            | false ↦ thrown malformed_message
            | true ↦ byte_at m (comma + 1) >>= from_second m comma end
          ])
      first_byte c lt there false e = tt
      first_byte c lt there true e =
          Kept-bind (λ c. byte_at m (comma + 1) ≡ ok c) (NoBlobs m) (byte_at m (comma + 1))
            (from_second m comma end) (byte_at-Kept m (comma + 1) (omega (arith, lt, even, within)))
            λ c' there'. at_second c' (there ∙ ap ok ((==_iff c b',').0 e)) there' (c' == 0) refl

      at_comma :
          (b : Bool)
          → (comma == end) ≡ b
          → Kept
              (NoBlobs m)
              (elim b [ true ↦ ok none | false ↦ byte_at m comma >>= from_comma m comma end ])
      at_comma true e = tt
      at_comma false e =
          let lt : comma < end = ground arith in
          Kept-bind (λ c. byte_at m comma ≡ ok c) (NoBlobs m) (byte_at m comma)
            (from_comma m comma end) (byte_at-Kept m comma (omega (arith, lt, within)))
            λ c there. first_byte c lt there (c == b',') refl

pub multiple_of_4 : (n : ℕ) → is_multiple_of_4 n ≡ true → n % 4 ≡ 0
unfolding is_multiple_of_4
multiple_of_4 n h = sym (bit_and_mask 2 n) ∙ (==_iff (bit_and n 3) 0).0 h

-- What is read of a message that is not refused.
abbrev pub IsMessage : Received → Type 0
IsMessage r = (a : Bytes) × (as' : List Argument) × (r ≡ message a as')

module _ (m : Bytes) (blobs : NoBlobTag m) where
  -- `Init` accepts or throws.
  init_message-Kept : (p size : ℕ) → p + size ≤ length m → Kept (NoBlobs m) (init_message m p size)
  unfolding init_message
  init_message-Kept p size within = go (is_valid_size size) (size == 0) (is_multiple_of_4 size) refl
    where
      search : Result (Option TypeTags)
      search = find_str4_end_bounded m p (p + size) >>= from_address m (p + size)

      at_found :
          (q : Option ℕ) → Found m p (p + size) q → Kept (NoBlobs m) (from_address m (p + size) q)
      at_found none k = tt
      at_found (some comma) k =
          init_tags-Kept m blobs (p + size) within comma k.inside.to k.inside.aligned

      go :
          (a b c : Bool)
          → is_multiple_of_4 size ≡ c
          → Kept (NoBlobs m) (elim a [
            | false ↦ thrown malformed_message
            | true ↦ elim b [
              | true ↦ thrown malformed_message
              | false ↦ elim c [ false ↦ thrown malformed_message | true ↦ search ]
            ]
          ])
      go false b c e = tt
      go true true c e = tt
      go true false false e = tt
      go true false true e =
          Kept-bind (Found m p (p + size)) (NoBlobs m) (find_str4_end_bounded m p (p + size))
            (from_address m (p + size))
            (find_str4_end_bounded-Kept m p (p + size) (omega arith) within
              (omega (arith, multiple_of_4 size e)))
            at_found

  read_message-thrown :
      (p size : ℕ) (x : Exception)
      → init_message m p size ≡ thrown x
      → read_message m p size ≡ thrown x
  unfolding read_message
  read_message-thrown p size x e = ap (λ r. r >>= from_found m p) e

  -- A message is read, or refused.
  pub read_message-Kept :
      (p size : ℕ) → p + size ≤ length m → Kept IsMessage (read_message m p size)
  read_message-Kept p size within =
      go (init_message m p size) refl (init_message-Kept p size within)
    where
      go :
          (r : Result (Option TypeTags))
          → init_message m p size ≡ r
          → Kept (NoBlobs m) r
          → Kept IsMessage (read_message m p size)
      go (ok tags) e k =
          let (a, as', read) = read_message-accepted m p size tags within e k in
          subst (Kept IsMessage) (sym read) (a, as', refl)
      go (thrown x) e k = subst (Kept IsMessage) (sym (read_message-thrown p size x e)) tt
      go (lua_error x) e k = elim k [ ]
      go undefined e k = elim k [ ]
