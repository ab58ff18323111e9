-- ===== src/Lib.antt =====
-- BetweenUS: a model of the account screens of the application, in BetweenUS/BetweenUS, and of the
-- protocol buffer library in BetweenUS/Pods/nanopb.
--
-- BetweenUS is an iOS application in Swift over Firebase. Its own logic is the sign-up and the
-- sign-in: view models that validate what is typed, screens that are bound to them, a manager that
-- asks Firebase, and the database of users. The C code that the repository holds is nanopb, which
-- encodes and decodes the messages of the transport under Firebase: pb_encode.c, pb_decode.c and
-- pb_common.c, with their headers. This library models both and proves what their parts promise.
--
-- The parts of the application. A text field publishes its text to a view model; a published text
-- is validated, its label follows, and a button is enabled by the latest outcomes of all fields. A
-- tap of the button has the shared AuthManager ask Firebase; the answer runs a closure that loads
-- or saves the user and tells the view model, which tells the screen. Everything that comes from
-- outside (a field, a tap, an answer of Firebase) is an event, and a run is a list of events in
-- any order.
--
-- The parts of nanopb. A message is a C struct in memory, described by an array of field
-- descriptors (pb_field_t). The field iterator of pb_common.c walks an array and the struct in
-- step. The encoder walks the fields, reads memory and writes to an output stream; the decoder
-- reads a tag from an input stream, finds its field with the iterator and stores a value in
-- memory. Streams call a function to read or write; submessages and packed arrays have substreams
-- of their own.
--
-- The files:
--   Prelude, Prelude/*        names, tests, lists, `bit_or`, and the outcome of a C function that
--                             returns a success flag (`Outcome`, the state monad `M`)
--   Nanopb/Error              the messages of PB_RETURN_ERROR, pb.h
--   Nanopb/Input, Input/*     pb_istream_t and its reads; varints, fixed words (Varint); headers,
--                             skipping, substreams (Fields): BetweenUS/Pods/nanopb/pb_decode.c; what
--                             a read may do to a stream (Laws, Bounds, Substream), when the loops
--                             end (Rounds)
--   Nanopb/Output, Output/*   pb_ostream_t and pb_write; the scalar encoders (Scalars), what a call
--                             may do to a stream (Laws): BetweenUS/Pods/nanopb/pb_encode.c
--   Nanopb/Wire/*             the scalar encoders and decoders together: Groups, RoundTrip, Header,
--                             Fixed, and the long varints of Wrap
--   Nanopb/Field, Field/*     pb_field_t, the types and memory: BetweenUS/Pods/nanopb/pb.h
--   Nanopb/Iter, Iter/*       pb_field_iter_t: BetweenUS/Pods/nanopb/pb_common.c; the walk over the
--                             fields (Walk), the search (Find), the descriptors that the macros of
--                             pb.h make of a struct (Struct) and the walk over them (Struct/Place)
--   Nanopb/Encode/*           messages: pb_check_proto3_default_value (Default), pb_enc_* and
--                             pb_encode_submessage (Value), fields, arrays, extensions and pb_encode
--                             (Message), what they add to a stream (Grow, Message/Grow), and that they
--                             count what they write (Counts, Counts/Submessage, Message/Packed,
--                             Message/Counts, Message/Size; Output/Counts for the scalars)
--   Nanopb/Decode/*           messages: the decoder's state and allocate_field (State), defaults and
--                             release (Reset), pb_dec_* (Value), decode_static_field (Static),
--                             decode_pointer_field (Pointer), callbacks, unions and decode_field
--                             (Field), the locals of pb_decode_noinit (Seen), extensions,
--                             pb_decode_noinit and pb_decode (Message); words in memory (Stored),
--                             scalar fields (Scalars), allocation (Allocate), and what a call may do
--                             to the stream (Reads, Reads/*), when its loop ends (Reads/Rounds), the
--                             set of required fields seen (Required)
--   Nanopb/Message/*          whole messages of required scalar fields through both sides: one field
--                             (Scalar), pb_encode (Encode), a round of the decoder (Decode), its loop
--                             (Loop), the test behind it (Complete), the struct (Layout), RoundTrip;
--                             fields in any order and number (Orders), a field that is missing
--                             (Missing), and that the order does not matter (AnyOrder)
--   Nanopb/Examples/*         the theorems and the code on concrete inputs
--   App/Regex, Regex/Laws     the regular expressions of the validation
--   App/Validation, .../*     validateEmail and validatePassword of
--                             BetweenUS/BetweenUS/ViewController/Rogin/loginViewModel.swift; what they
--                             accept (Laws, Email)
--   App/User, User/Saved      User and FBUserDatabase: BetweenUS/BetweenUS/Model/User.swift and
--                             BetweenUS/BetweenUS/Manager/Firebase/FBUserDatabase.swift
--   App/Auth, Auth/*          BetweenUS/BetweenUS/Manager/AuthManager.swift, a closure of Firebase as
--                             a function of its own; accounts from sign-up to sign-in (Account),
--                             what a request has to be (Valid)
--   App/Login                 what loginViewModel.swift and the screens share
--   App/SignIn, SignIn/*      BetweenUS/BetweenUS/ViewController/Rogin/SignIn; the invariant of the
--                             screen (Consistent), what Firebase's answers do to it (Feedback)
--   App/SignUp, SignUp/*      BetweenUS/BetweenUS/ViewController/Rogin/SignUp; the events (Events), the
--                             invariant of the screens (Consistent) and of the requests (Requests),
--                             a sign-up that goes through (Account), edits behind a check (Edits)
--   App/Application, .../*    BetweenUS/BetweenUS/Application and all screens together: the list of
--                             the sign-up screens (Screens), the invariant from the launch on
--                             (Sound), runs that stay on one screen (Runs), a new user's way to the
--                             main screen (Account)
--   App/Examples, Examples/*  the theorems on concrete inputs
--
-- Functions keep their names, in this library's spelling. In nanopb, a function that changes a
-- stream or memory through a pointer and returns a flag is a function from the state to an
-- `Outcome`: `ok` with a value and the state, or `fail` with the state. What it stores through
-- other pointers is its value.
--
-- In the application, a method is a function on the state of its screen and, where it asks
-- Firebase, on the state of the manager (`World`: the database, the current user and the requests
-- so far). A Swift string is the list of its code points. A publisher of Combine is followed to
-- its one subscriber: a `@Published` property and a `CurrentValueSubject` send their value on
-- subscription and a property sends before it is stored; `combineLatest` sends once all have sent;
-- a field of CombineCocoa sends its text on subscription and then at each editing event, and a date
-- picker its date. Firebase
-- answers a request with a user or an error code, at any later time.
--
-- The build is that of the pods: PB_FIELD_32BIT, PB_NO_PACKED_STRUCTS, PB_ENABLE_MALLOC, error
-- messages and 64-bit integers, on a 64-bit little-endian platform whose `uint_fast8_t` has 8
-- bits. Integers are numbers with the wrap-around of their type written out; a signed integer is
-- its pattern. Memory is a byte at each address.
--
-- Loops with a bound in the code have that number of rounds. The others run on fuel: a read loop
-- takes a byte in each round and has `bytes_left + 1` rounds, the loop over the fields of an array
-- has a round for each, and the loop of pb_encode_varint has 64, one for each bit of its value. The nesting of messages, and the length of a list of extensions, is
-- bounded by a depth that the caller of the model gives; the C code has its stack for it.
--
-- Parameters: the Realtime Database (`Database`: what is written is read again, and siblings
-- stay), the answers of Firebase Auth, the date on which a screen is opened, the equality of Swift strings, whether UIKit presents a
-- screen on one that presents another; the functions behind a stream, the functions of callback fields and extensions, the allocator, and the descriptor array
-- that an address stands for.
--
-- Not modelled: what a reader that fails has put into its buffer before; null pointers to streams;
-- descriptors that select no decoder, which the code does not test; the macros for
-- extension fields. In the application: layout, colours and transitions of screens, the screens behind the
-- sign-in, which are empty, and the closing of an alert, which is taken to happen before the next
-- event. The pods other than nanopb are libraries that the application calls, and are not
-- modelled.
pub mod Prelude
pub mod Nanopb
pub mod App
