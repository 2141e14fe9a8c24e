-- ===== src/Writer/Fifo.antt =====
-- One write at a time, in the order of the calls, and no packet forgotten.
use slsfs.Prelude.{
  subst, ◌≤◌, ◌≤◌, append-nil, ◌+◌, ap₂, ◌∙◌, Bool-cases, ◌∙◌, Bool, arith, sym, append_assoc, ap,
  ◌++◌, length, ◌≡◌, ◌≡◌, List, refl, inr, inl, false, true, ◌∷◌, [],
}
use slsfs.Bytes.{Bytes}
use slsfs.Writer.{
  SocketWriter, idle_writer, start_write_one_packet, start_write_socket, on_write_end, WriterEvent,
  writer_step, writer_run,
}

-- The packets of the calls, in their order.
abbrev pub packets : List WriterEvent → List Bytes
packets [] = []
packets (WriterEvent.write p ∷ es) = p ∷ packets es
packets (WriterEvent.ends error ∷ es) = packets es

-- The writer has just one write in flight while `is_writing_` is set, and none otherwise; and then, unless
-- a write has failed, nothing waits.
pub record IsOrderly (s : SocketWriter) : Type 0 where
  pub busy : s.is_writing ≡ true → length s.in_flight ≡ 1
  pub free : s.is_writing ≡ false → s.in_flight ≡ []
  pub nothing_waits : s.is_writing ≡ false → s.errors ≡ 0 → s.queue ≡ []

-- Every packet that the writer has got, in order.
abbrev all_of : SocketWriter → List Bytes
all_of s = s.ended ++ (s.in_flight ++ s.queue)

-- `start_write_one_packet` while the flag is set and nothing is in flight.
one_packet :
    (s : SocketWriter)
    → s.is_writing ≡ true
    → s.in_flight ≡ []
    → IsOrderly (start_write_one_packet s) × (all_of (start_write_one_packet s) ≡ all_of s)
unfolding start_write_one_packet
one_packet s on none_yet = by_queue s.queue refl
  where
    by_queue :
        (q : List Bytes)
        → s.queue ≡ q
        → IsOrderly (start_write_one_packet s) × (all_of (start_write_one_packet s) ≡ all_of s)
    by_queue [] e =
        rw (e, start_write_one_packet)
          (
            record { busy = λ b. absurd (cc); free = λ b. none_yet; nothing_waits = λ b z. e },
            ap (λ q. s.ended ++ (s.in_flight ++ q)) e,
          )
    by_queue (p ∷ ps) e =
        rw (e, start_write_one_packet)
          (
            record {
              busy = λ b. ap (λ l. length (l ++ (p ∷ []))) none_yet;
              free = λ b. absurd (cc);
              nothing_waits = λ b z. absurd (cc);
            },
            ap (λ l. s.ended ++ l) (append_assoc s.in_flight (p ∷ []) ps),
          )

write-IsOrderly :
    (p : Bytes) (s : SocketWriter)
    → IsOrderly s
    → IsOrderly (start_write_socket p s) × (all_of (start_write_socket p s) ≡ all_of s ++ (p ∷ []))
unfolding start_write_socket
write-IsOrderly p s v =
    let longer : s.ended ++ (s.in_flight ++ (s.queue ++ (p ∷ []))) ≡ all_of s ++ (p ∷ []) =
      ap (λ l. s.ended ++ l) (sym (append_assoc s.in_flight s.queue (p ∷ [])))
      ∙ sym (append_assoc s.ended (s.in_flight ++ s.queue) (p ∷ [])) in
    elim (Bool-cases s.is_writing) [
      | inl on ↦
          rw (on, start_write_socket)
            (
              record {
                busy = λ b. v.busy on;
                free = λ b. absurd (cc);
                nothing_waits = λ b z. absurd (cc);
              },
              longer,
            )
      | inr off ↦
          let (orderly, same) =
            one_packet (record s { queue = s.queue ++ (p ∷ []); is_writing = true }) refl
              (v.free off) in
          rw (off, start_write_socket) (orderly, same ∙ longer)
    ]

-- While something is in flight the flag is set.
busy_of :
    (s : SocketWriter) (p : Bytes) (ps : List Bytes)
    → IsOrderly s
    → s.in_flight ≡ p ∷ ps
    → (s.is_writing ≡ true) × (ps ≡ [])
busy_of s p ps v e = elim (Bool-cases s.is_writing) [
  | inl on ↦ (on, length_zero ps (omega (arith, ap length e, v.busy on)))
  | inr off ↦ absurd (let bad : p ∷ ps ≡ [] = sym e ∙ v.free off in cc)
]
  where
    length_zero : (l : List Bytes) → length l ≡ 0 → l ≡ []
    length_zero [] h = refl
    length_zero (x ∷ xs) h = absurd (omega arith)

end-IsOrderly :
    (error : Bool) (s : SocketWriter)
    → IsOrderly s
    → IsOrderly (on_write_end error s) × (all_of (on_write_end error s) ≡ all_of s)
unfolding on_write_end
end-IsOrderly error s v = by_flight s.in_flight refl
  where
    by_flight :
        (f : List Bytes)
        → s.in_flight ≡ f
        → IsOrderly (on_write_end error s) × (all_of (on_write_end error s) ≡ all_of s)
    by_flight [] e = rw (e, on_write_end) (v, ap (λ l. s.ended ++ (l ++ s.queue)) e)
    by_flight (p ∷ ps) e =
        let (on, nothing) = busy_of s p ps v e in
        let taken : SocketWriter = record s { in_flight = ps; ended = s.ended ++ (p ∷ []) } in
        let same : all_of taken ≡ all_of s =
          append_assoc s.ended (p ∷ []) (ps ++ s.queue)
          ∙ sym (ap (λ l. s.ended ++ (l ++ s.queue)) e) in
        let failed : SocketWriter = record taken { is_writing = false; errors = s.errors + 1 } in
        let (orderly, kept) = one_packet taken on nothing in
        elim (Bool-cases error) [
          | inl er ↦
              let r : on_write_end error s ≡ failed = rw (e, on_write_end) (rw er refl) in
              subst (λ x. IsOrderly x × (all_of x ≡ all_of s)) (sym r)
                (
                  record {
                    busy = λ b. absurd (cc);
                    free = λ b. nothing;
                    nothing_waits = λ b z. absurd (omega arith);
                  },
                  same,
                )
          | inr ok ↦
              let r : on_write_end error s ≡ start_write_one_packet taken =
                rw (e, on_write_end) (rw ok refl) in
              subst (λ x. IsOrderly x × (all_of x ≡ all_of s)) (sym r) (orderly, kept ∙ same)
        ]

-- The state after any calls and callbacks.
run-IsOrderly :
    (es : List WriterEvent) (s : SocketWriter)
    → IsOrderly s
    → IsOrderly (writer_run es s) × (all_of (writer_run es s) ≡ all_of s ++ packets es)
unfolding writer_run writer_step
run-IsOrderly [] s v = (v, sym (append-nil (all_of s)))
run-IsOrderly (WriterEvent.write p ∷ es) s v =
    let (v1, e1) = write-IsOrderly p s v in
    let (v2, e2) = run-IsOrderly es (start_write_socket p s) v1 in
    (v2, e2 ∙ ap (λ l. l ++ packets es) e1 ∙ append_assoc (all_of s) (p ∷ []) (packets es))
run-IsOrderly (WriterEvent.ends error ∷ es) s v =
    let (v1, e1) = end-IsOrderly error s v in
    let (v2, e2) = run-IsOrderly es (on_write_end error s) v1 in
    (v2, e2 ∙ ap (λ l. l ++ packets es) e1)

-- Whatever calls and callbacks there were, each one as a whole, at most one write is in flight, the packets
-- that were written, the one in flight and those that wait are those of the calls in their order, and if no
-- write has failed and none is in flight then all are written.
pub written_in_order :
    (es : List WriterEvent)
    → let s : SocketWriter = writer_run es idle_writer in
      (length s.in_flight ≤ 1)
      × (s.ended ++ (s.in_flight ++ s.queue) ≡ packets es)
      × (s.in_flight ≡ [] → s.errors ≡ 0 → s.ended ≡ packets es)
unfolding idle_writer
written_in_order es =
    let s : SocketWriter = writer_run es idle_writer in
    let start : IsOrderly idle_writer = record {
      busy = λ b. absurd (cc);
      free = λ b. refl;
      nothing_waits = λ b z. refl;
    } in
    let (v, all) = run-IsOrderly es idle_writer start in
    elim (Bool-cases s.is_writing) [
      | inl on ↦ (
        omega (arith, v.busy on),
        all,
        λ none_yet z. absurd (omega (arith, v.busy on, ap length none_yet)),
      )
      | inr off ↦ (
        omega (arith, ap length (v.free off)),
        all,
        λ none_yet z.
            sym (append-nil s.ended)
            ∙ ap₂ (λ f q. s.ended ++ (f ++ q)) (sym none_yet) (sym (v.nothing_waits off z))
            ∙ all,
      )
    ]
