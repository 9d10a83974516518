-- ===== src/Bubbles/Delivery.antt =====
-- What is sent to a process calls the plug-in that the message names.
use nginz.Prelude.{
  ℕ, ◌+◌, ◌≤◌, ◌<◌, ◌≡◌, refl, ap, ◌∙◌, true, false, some, List, [], ◌∷◌, ◌++◌, arith, ==_refl,
  ==_of_ne, length, length-append,
}
use nginz.Xtring.{Xtring}
use nginz.BinaryCoder
use nginz.BinaryCoder.Layout.{Field, IsFramed, encode_all, size, length_framed}
use nginz.BinaryCoder.Message.{unpack-Behind}
use nginz.BinaryCoder.Framed.{text_field, take_whole}
use nginz.BinaryCoder.RoundTrip.{length-encode_all}
use nginz.EventLoop.{EventLoop}
use nginz.Pipeline
use nginz.Pipeline.{Pipeline, max_process_count}
use nginz.Pipeline.Lookup.{IsStar, IsFull, pp_send_lem}
use nginz.Bubbles.{
  Pipe, max_binary_msg_len, pp_simple_sendmsg, received_text, pp_simple_recvmsg_helper, read_packet,
  on_bubbles,
}

-- The pipe of node `j` is a pair, whose reading end the process of that node has in its own table;
-- the kernel takes what is written, and nothing waits in it.
pub record IsReady (K : Pipe) (s t : Pipeline) (j : ℕ) (w : K.World) : Type 0 where
  pub mine : t.mynode ≡ some j
  pub paired : K.peer (s.nodes j).fd0 ≡ (t.nodes j).fd1
  pub taken : (l : List ℕ) → (K.sendmsg (s.nodes j).fd0 l w).0 ≡ true
  pub alone : K.queue (t.nodes j).fd1 w ≡ []

module _ (X : Xtring) (K : Pipe) where
  open X use {Txt, bytes, set_length, of_bytes}
  open K use {World, queue}

  pp_simple_recvmsg_helper_lem :
      (q : ℕ) (m : Txt) (w : World)
      → queue q w ≡ bytes m ∷ []
      → length (bytes m) ≤ max_binary_msg_len
      → (cmd : Txt) × (junk : List ℕ) × ((pp_simple_recvmsg_helper X K q w).0 ≡ some cmd)
        × (bytes cmd ≡ bytes m ++ junk)
        × (length (bytes cmd) ≡ max_binary_msg_len)
  unfolding pp_simple_recvmsg_helper received_text
  pp_simple_recvmsg_helper_lem q m w waiting short =
      let (junk, total, got) = K.recvmsg_lem q max_binary_msg_len (bytes m) [] w waiting short in
      let buffer = of_bytes (bytes m ++ junk) in
      let content : bytes (set_length max_binary_msg_len buffer) ≡ bytes m ++ junk =
        X.bytes-set_length max_binary_msg_len buffer (rw (X.bytes-of_bytes, total) (omega arith))
        ∙ rw X.bytes-of_bytes (take_whole max_binary_msg_len (bytes m ++ junk) total) in
      (set_length max_binary_msg_len buffer, junk, rw got refl, content, rw content total)

  -- A message that a process sends to node `j`, whose second field is a name that is not empty,
  -- and which fits into the buffer of the receiver: it is sent, and when the process of that node
  -- reads its pipe, in which nothing else has waited, it calls the plug-in of that name, with a
  -- text that begins with the message.
  pub on_bubbles-pp_send :
      {S : Type 0} (pm_call : List ℕ → Txt → EventLoop × (S × World) → EventLoop × (S × World))
      (e : ℕ → ℕ) (s t : Pipeline) (j : ℕ) (pkt name : Txt) (src : Field X) (after : List (Field X))
      (loop : EventLoop) (u : S) (w : World)
      → IsStar e
      → IsFull e s
      → j < max_process_count
      → IsReady K s t j w
      → IsFramed X pkt (encode_all X (src ∷ text_field X name ∷ after))
      → 2 + size X (src ∷ text_field X name ∷ after) ≤ max_binary_msg_len
      → length (bytes src.payload) < 200
      → 0 < length (bytes name)
      → (w' w'' : World) × (cmd : Txt) × (junk : List ℕ) × (Pipeline.pp_send
            (pp_simple_sendmsg X K)
            (e j)
            pkt
            s
            w
          ≡ some (true, w'))
        × (on_bubbles X K pm_call false (t.nodes j).fd1 t (loop, (u, w'))
            ≡ some (pm_call (bytes name) cmd (loop, (u, w''))))
        × (bytes cmd ≡ bytes pkt ++ junk)
  unfolding on_bubbles read_packet pp_simple_sendmsg BinaryCoder.binary_unpack_string
  on_bubbles-pp_send pm_call e s t j pkt name src after loop u w star full h ready framed fits near
        named =
      let fields = src ∷ text_field X name ∷ after in
      let body = encode_all X fields in
      let sent = K.sendmsg (s.nodes j).fd0 (bytes pkt) w in
      let ok = ready.taken (bytes pkt) in
      let waiting : queue (t.nodes j).fd1 sent.1 ≡ bytes pkt ∷ [] =
        rw⁻¹ ready.paired (
          K.queue-sendmsg (s.nodes j).fd0 (bytes pkt) w ok ∙ rw (ready.paired, ready.alone) refl) in
      let size_pkt : length (bytes pkt) ≡ 2 + size X fields =
        length_framed X pkt body framed ∙ ap (λ n. 2 + n) (length-encode_all X fields) in
      let (cmd, junk, got, content, total) =
        pp_simple_recvmsg_helper_lem (t.nodes j).fd1 pkt sent.1 waiting (rw size_pkt fits) in
      let junk_room : length junk ≤ max_binary_msg_len =
        omega (arith, total, ap length content, length-append (bytes pkt) junk) in
      let (x, run, same) =
        unpack-Behind X cmd (src ∷ []) (text_field X name) after junk
          (content ∙ ap (λ (l : List ℕ). l ++ junk) framed) (omega arith) (omega arith) in
      let unpacked : BinaryCoder.binary_unpack_string X cmd 1 ≡ some (true, x) = run in
      (
        sent.1,
        (pp_simple_recvmsg_helper X K (t.nodes j).fd1 sent.1).1,
        cmd,
        junk,
        pp_send_lem (pp_simple_sendmsg X K) e j pkt s w star h full ∙ ap (λ b. some (b, sent.1)) ok,
        rw
            (
              ready.mine,
              ==_refl (t.nodes j).fd1,
              got,
              total,
              run,
              same,
              ==_of_ne (length (bytes name)) 0 (omega arith),
            )
            refl,
        content,
      )
