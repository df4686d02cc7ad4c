-- ===== src/Zepoll/Batch.antt =====
-- A batch of events, handled to its end.
use ifellsofuckinggood.Prelude.{
  ℕ, ◌≡◌, ◌≢◌, refl, subst, Bytes, some, List, [], ◌∷◌, All, length, returned, arith,
}
use ifellsofuckinggood.Zepoll.{
  Event, server_handler, Interest, IoLoop, and_then, handle_events, listening, new,
}
use ifellsofuckinggood.Zepoll.Serving.{
  IsServing, IsReported, IsDistinct, buffer_size, add_handler-IsServing, dispatch-Serves,
}

module _ (junk : ℕ) (junk_buffer : Bytes) (size : length junk_buffer ≡ buffer_size) where
  still-IsReported :
      (e : Event) (s s' : IoLoop) (es : List Event)
      → ((j : ℕ) (i : Interest) → j ≢ e.fd → s.epoll j ≡ some i → s'.epoll j ≡ some i)
      → IsServing s
      → All (λ (x : Event). x.fd ≢ e.fd) es
      → All (IsReported s) es
      → All (IsReported s') es
  still-IsReported e s s' [] k v n p = tt
  still-IsReported e s s' (x ∷ es) k v n p =
      let i = v.reports p.0.place p.0.interest p.0.kept in
      let at : x.fd ≡ p.0.place = ground arith in
      (
        record {
          place = p.0.place;
          interest = p.0.interest;
          kept = k p.0.place p.0.interest (subst (λ j. j ≢ e.fd) at n.0) p.0.kept;
          reported = p.0.reported;
          asked = p.0.asked;
          frame = p.0.frame;
        },
        still-IsReported e s s' es k v n.1 p.1,
      )

  -- In a loop where every descriptor of the kernel's set has a handler, a batch of events that epoll_wait
  -- may report, whose received chunks are whole frames, is handled to its end: no event goes to a missing
  -- handler, also where an earlier one of the batch has removed its own or added another, and the loop is
  -- left as it was found.
  pub handle_events-IsServing :
      (es : List Event) (s : IoLoop)
      → IsServing s
      → All (IsReported s) es
      → IsDistinct es
      → (s' : IoLoop) × (handle_events junk junk_buffer es s ≡ returned s') × IsServing s'
  unfolding handle_events and_then
  handle_events-IsServing [] s v p d = (s, refl, v)
  handle_events-IsServing (e ∷ es) s v p d =
      let r = dispatch-Serves junk junk_buffer size e s p.0 v in
      let q = handle_events-IsServing es r.0 r.2 (still-IsReported e s r.0 es r.3 v d.0 p.1) d.1 in
      (q.0, rw (r.1) q.1, q.2)

new-IsServing : IsServing new
new-IsServing = record { handled = λ j i h. cc; reports = λ j i h. cc; sized = λ j g h. cc }

pub listening-IsServing : (fd : ℕ) → IsServing (listening fd)
unfolding listening
listening-IsServing fd = add_handler-IsServing fd server_handler new tt new-IsServing
