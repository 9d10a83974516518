-- ===== src/Handover/Arrival.antt =====
-- What the master sends with a socket is what the handler of the protocol gets in the worker.
use nginz.Prelude.{
  ℕ, ◌+◌, ◌≤◌, ◌<◌, ◌≡◌, refl, ◌∙◌, true, Option, some, List, [], ◌∷◌, ◌++◌, arith, ltb-true,
  length,
}
use nginz.Xtring.{Xtring}
use nginz.BinaryCoder
use nginz.BinaryCoder.{int_bytes, content_string}
use nginz.BinaryCoder.Layout.{IsFramed, encode_all, length_framed}
use nginz.BinaryCoder.Message.{unpack_framed}
use nginz.BinaryCoder.Integers.{int_value, unpack_int_framed}
use nginz.BinaryCoder.Framed.{
  take_whole, int_field, text_field, pid_fields, size-pid_fields, length-pid_fields,
  binary_coder_fixup-IsFramed,
}
use nginz.Protostack
use nginz.Protostack.{Protostack}
use nginz.Handover.{
  Kernel, receive_room, pp_raw_sendmsg_helper, pp_recvmsg_helper, dispatch, on_raw_recv_socket,
}

module _ (X : Xtring) (K : Kernel) where
  open X use {Txt, bytes, capacity, set_length, of_bytes}
  open K use {World, sendmsg, recvmsg, close, queue, peer, installed}

  -- What is sent through a socket with nothing before it waits alone at the other end, after the
  -- sender has closed its own descriptor.
  pub queue-pp_raw_sendmsg_helper :
      (through target : ℕ) (m : Txt) (w : World)
      → (sendmsg through target (bytes m) w).0 ≡ true
      → queue (peer through) w ≡ []
      → queue (peer through) (pp_raw_sendmsg_helper X K through target m w).1
        ≡ (target, bytes m) ∷ []
  unfolding pp_raw_sendmsg_helper
  queue-pp_raw_sendmsg_helper through target m w ok alone =
      let sent = K.queue-sendmsg through target (bytes m) w ok in
      rw (ok, K.queue-close) (sent ∙ rw alone refl)

  -- The text that is received, cut to its message.
  pp_recvmsg_helper-IsFramed :
      (q target : ℕ) (m : Txt) (body : List ℕ) (w : World)
      → queue q w ≡ (target, bytes m) ∷ []
      → IsFramed X m body
      → 2 + length body ≤ receive_room
      → (cmd u : Txt) × ((pp_recvmsg_helper X K q w).0 ≡ some (some (installed q w), cmd))
        × (BinaryCoder.binary_coder_fixup X cmd ≡ some u)
        × IsFramed X u body
  unfolding pp_recvmsg_helper
  pp_recvmsg_helper-IsFramed q target m body w waiting framed short =
      let (junk, total, got) =
        K.recvmsg_lem q receive_room target (bytes m) [] w waiting
          (rw (length_framed X m body framed) short) in
      let buffer = of_bytes (bytes m ++ junk) in
      let cmd = set_length receive_room buffer in
      let content : bytes cmd ≡ bytes m ++ junk =
        X.bytes-set_length receive_room buffer (rw (X.bytes-of_bytes, total) (omega arith))
        ∙ rw X.bytes-of_bytes (take_whole receive_room (bytes m ++ junk) total) in
      let (u, fixed, framed') =
        binary_coder_fixup-IsFramed X cmd body junk (content ∙ rw framed refl) (omega arith)
          (rw (content, total) (omega arith)) in
      (cmd, u, rw got refl, fixed, framed')

  -- The worker's side: a message from a process about a port, which waits alone, comes to the
  -- handler of the protocol of that port.
  pub on_raw_recv_socket-framed :
      {S : Type 0} (bubble : ℕ → Option ℕ → Txt → S × World → Option (S × World))
      (q target port stack : ℕ) (m welcome : Txt) (stacks : Protostack) (s : S) (w : World)
      → queue q w ≡ (target, bytes m) ∷ []
      → port < 0x8000_0000
      → length (bytes welcome) + 19 ≤ receive_room
      → IsFramed X m (encode_all X (pid_fields X 0 port welcome))
      → Protostack.protostack_get port stacks ≡ some stack
      → (cmd x : Txt) × (on_raw_recv_socket X K bubble q stacks (s, w)
          ≡ bubble stack (some (installed q w)) cmd (s, (pp_recvmsg_helper X K q w).1))
        × (BinaryCoder.binary_unpack_string X cmd 2 ≡ some (true, x))
        × (bytes x ≡ bytes welcome)
  unfolding on_raw_recv_socket dispatch
  on_raw_recv_socket-framed bubble q target port stack m welcome stacks s w waiting small short
        framed known =
      let body = encode_all X (pid_fields X 0 port welcome) in
      let bound = size-pid_fields X 0 port welcome in
      let (cmd, u, got, fixed, framed') =
        pp_recvmsg_helper-IsFramed q target m body w waiting framed
          (omega (arith, length-pid_fields X 0 port welcome)) in
      let src : BinaryCoder.binary_unpack_int X u 0 0 ≡ some (true, 0) =
        unpack_int_framed X u [] 0 (int_field X port ∷ text_field X welcome ∷ []) 0 (omega arith)
          framed' (omega (arith, bound)) (omega arith) in
      let at_port : BinaryCoder.binary_unpack_int X u 1 0 ≡ some (true, int_value port) =
        unpack_int_framed X u (int_field X 0 ∷ []) port (text_field X welcome ∷ []) 0 (omega arith)
          framed' (omega (arith, bound)) (omega (arith, bound)) in
      let (x, run, same) =
        unpack_framed X u (int_field X 0 ∷ int_field X port ∷ []) (text_field X welcome) [] framed'
          (omega (arith, bound)) (omega (arith, bound)) in
      let value : int_value port ≡ port = rw (ltb-true port 0x8000_0000 small) refl in
      let lookup : Protostack.protostack_get (int_value port) stacks ≡ some stack =
        rw value known in
      (
        u,
        x,
        rw (got, fixed, src, at_port, lookup) refl,
        unfold BinaryCoder.binary_unpack_string in run,
        same,
      )
