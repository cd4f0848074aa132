-- ===== src/Lib.antt =====
-- The C and C++ parts of Lua2SC, the modules that its Lua program loads: a random generator, a
-- packer of OSC messages over the library oscpack, and a binding of the MIDI library PortMidi. Lua
-- calls each module with values on its stack; only the packer and oscpack call one another.
--
-- Random models random/random.c and random/lrandom.c. State has the struct `MT` (a list of words,
-- the index `mti`, `iset` and `gset`) and `init_genrand`, Generate has `genrand_int32`, whose three
-- loops are refill_low, refill_high and the last step of refill, and its tempering. An access to
-- the array is an option, `none` outside it. `unsigned long` has 32 or 64 bits: every operation
-- takes the width and reduces where the code's arithmetic wraps; only the seeding and two shifts of
-- the tempering can leave 32 bits. Real has the distributions and Binding the Lua functions `Lnew`
-- to `LvalueN`. A handle is an index into the list of the states that Lua holds, so two arguments
-- that name the same handle share its state; the content of new memory is an argument. `double` and
-- the functions of math.h are the parameter Double. The loop of `genrand_normal` need not end, and
-- takes fuel, one unit for each attempt. Reference has the recurrence of the generator's authors;
-- Steps, Blocks, Stream and Sequence follow the code in its array along it. Keeps, Drawing,
-- Ignores, Restart, Handles and Frame are about the states that Lua holds, Normal and Resolution
-- about the distributions, Range about the limits of `valuei`, under laws of IEEE 754 that the
-- numbers of Fixed satisfy too, Tempering and Width about the words.
--
-- Osc models osclua/osclua.cpp. Value has the Lua values that the code tells apart, the conversions
-- of numbers as the parameter Numbers (`none` where C leaves a conversion undefined), and the
-- outcome of a call: a value, a Lua error, a C++ exception or undefined behaviour. Encode is
-- `toOSC` with `pushSpecial`, `pushValuesLua`, `toOSCMessage` and `toOSCBundle`; Decode is
-- `fromOSC` with `parseOSCMessage` and `fromOSCParseArgs`. The library oscpack is the parameter
-- Oscpack: what each `<<` does to a stream and what the readers show of a packet. A table of Lua is
-- the list of its elements from 1 up to the last that is not nil, and has no metatable. Meaning
-- says what packet a table stands for, apart from any stream; Writes and Refinement compare the
-- code's writes with it. Portable and RoundTrip are about decoding and packing again, Typed about
-- the types of special tables, Errors about exceptions, Arguments about the arguments of `fromOSC`
-- and Shape about the tables that it returns. All of these functions recurse on the structure of
-- the table or the packet, without fuel.
--
-- Midi models luaportmidi/luaportmidi.c over the parameter PortMidi, in Port: the library's state,
-- its calls and the macros on messages. Core has the registered functions, `listDevices` to
-- `writeShort`; an `int` that holds bytes is its bit pattern. Sent is about the call of
-- `Pm_WriteShort`, Event about reading short messages, Devices about the list of devices, Handles,
-- Lifecycle and Opening about the userdata.
--
-- Packet models the part of oscpack_1_1_0/osc that osclua compiles and calls, and fills the
-- parameter Oscpack with it in Wire. Order has the byte orders and the alignment of
-- OscOutboundPacketStream.cpp and OscReceivedElements.cpp. Outbound, Arguments and Write are the
-- class `OutboundPacketStream`: its state, elements and tests for space, the overloads of `<<` for
-- arguments, and those for messages and bundles. Memory, Message, Iterate and Bundle are the
-- readers: `FindStr4End`, `ReceivedMessage::Init`, the iterator over arguments with the accessors,
-- and packets and bundles. Pointers are offsets into the memory, and a read outside it is undefined
-- behaviour. The host has the low byte first. Layout is the packet as OSC 1.0 lays it out, without
-- a buffer; Grown and Step say what single writes do, Written what lists of writes do, and Packed
-- what `toOSC` does with them. Read follows the readers over bytes of that layout, and ReadBack
-- joins writing and reading. Bounded is about any order of writes, Linked about the chain of open
-- elements whose pointers stand in the buffer, Accepted about the readers on any bytes, whoever
-- sent them, Oversized about a blob that is not there, Lacks about bytes in which no blob and no
-- bad size can stand. Osc.Kept has the property of a call that it throws or yields what it should.
-- The padding loop has fuel for three rounds, which reach the next multiple of four. The loops of
-- the readers have fuel for each byte of the packet: once `Init` has refused unknown type tags,
-- each round moves on by at least one byte, but for one case. The size of a bundle's element is
-- added in 32 bits, and at the size 2 ^ 32 - 4 the loop of `ReceivedBundle::Init` stays where it
-- is; Endless is about that loop, which C++ leaves undefined, as the model does when fuel runs out.
--
-- Words has the laws of the bit operations on unsigned numbers, proved digit by digit, and Prelude
-- the names and the lemmas on lists that the parts share. The modules named Tests run the code on
-- small inputs.
--
-- Not modelled: the functions `luaopen_...`, which fill Lua tables with the functions' names; the
-- texts of error messages; Lua strings of 2 ^ 31 bytes or more, whose length the code casts to
-- `int`; the size of a userdata that `fromOSC` takes for a packet; `PtErrorMsg`, which nothing
-- calls; the Lua program itself; Lua, of which the repository holds a copy; of oscpack, the sockets,
-- the printing and what osclua never calls.
pub mod Prelude
pub mod Words
pub mod Random
pub mod Osc
pub mod Packet
pub mod Midi
