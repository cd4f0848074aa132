-- ===== src/Osc/Pack.antt =====
-- The library oscpack as osclua/osclua.cpp uses it: the overloads of `<<` that fill a packet, and
-- what the readers show of a received one. The library itself is a parameter.
use lua2sc.Prelude.{ℕ, List, Bool}
use lua2sc.Osc.Value.{Bytes, Exception, Result}

-- An argument of a message, by its type tag; `unknown` is any other tag that a reader shows.
pub data Argument : Type 0 where
  int32 int64 float double char rgba_color midi_message time_tag : ℕ → Argument
  string symbol blob : Bytes → Argument
  boolean : Bool → Argument
  nil infinitum array_begin array_end : Argument
  unknown : ℕ → Argument

-- What is written with `<<`.
pub data Item : Type 0 where
  begin_bundle : ℕ → Item
  end_bundle : Item
  begin_message : Bytes → Item
  end_message : Item
  argument : Argument → Item

-- What the readers show. To read a message or a bundle may throw or be undefined.
mutual
  pub data Received : Type 0 where
    message : Bytes → List Argument → Received
    bundle : ℕ → Elements → Received
    throwing_message throwing_bundle : Exception → Received
    undefined_reading : Received

  pub data Elements : Type 0 where
    no_more : Elements
    element : Received → Elements → Elements

pub record Oscpack : Type 1 where
  pub Stream : Type 0
  -- an empty stream over the buffer of OUTPUT_BUFFER_SIZE bytes
  pub empty : Stream
  pub put : Item → Stream → Result Stream
  -- `p.Data()` and `p.Size()`
  pub contents : Stream → Bytes
  -- `osc::ReceivedPacket p(msg, len)` and the readers over it
  pub receive : Bytes → Result Received
