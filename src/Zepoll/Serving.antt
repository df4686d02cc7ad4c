-- ===== src/Zepoll/Serving.antt =====
-- The loop never calls a missing handler, and handles every batch of events to its end.
use ifellsofuckinggood.Prelude.{
  ℕ, ◌≡◌, ◌≢◌, ◌≤◌, refl, sym, ap, ◌∙◌, subst, pos, Bytes, Bool, true, false, ◌&&◌, Option, none,
  some, List, [], ◌∷◌, ◌++◌, All, drop, le→ltb, ◌==◌, Bool-cases, Option-cases, inl, inr, overwrite,
  overwrite_all, length, c_string, Outcome, returned, arith,
}
use ifellsofuckinggood.TransObj.{TransObj, new_default, trans_buff2_obj, size_of_trans_obj}
use ifellsofuckinggood.HandleMsg.{Task, server_handle}
use ifellsofuckinggood.Zepoll.{
  Event, Echo, Handler, echo_handler, server_handler, Interest, IoLoop, update, add_handler,
  remove_handler, tasks_of, on_obj, on_recv, echo_handle, server_accept, call_handler, dispatch,
}

abbrev pub buffer_size : ℕ
buffer_size = 512

abbrev pub IsSized : Handler → Type 0
IsSized (echo_handler h) = length h.buffer ≡ buffer_size
IsSized server_handler = Unit

-- Every descriptor in the kernel's set has a handler, reports itself and is there for reading.
pub record IsServing (s : IoLoop) : Type 0 where
  pub handled :
      (fd : ℕ) (i : Interest) → s.epoll fd ≡ some i → (h : Handler) × (s.handlers fd ≡ some h)
  pub reports :
      (fd : ℕ) (i : Interest)
      → s.epoll fd ≡ some i
      → i ≡ record { report = fd; epollin = true; epollout = false }
  pub sized : (fd : ℕ) (h : Handler) → s.handlers fd ≡ some h → IsSized h

-- A chunk that fills the buffer, with a NUL from the text of an object on.
abbrev pub IsFrame : Option Bytes → Type 0
IsFrame none = Unit
IsFrame (some chunk) =
    (text : Bytes) × (length chunk ≡ buffer_size) × (c_string (drop 20 chunk) ≡ some text)

-- epoll_wait reports the data of a descriptor in the set, and EPOLLOUT only where it was asked for.
pub record IsReported (s : IoLoop) (e : Event) : Type 0 where
  pub place : ℕ
  pub interest : Interest
  pub kept : s.epoll place ≡ some interest
  pub reported : e.fd ≡ interest.report
  pub asked : e.writable ≡ (e.writable && interest.epollout)
  pub frame : IsFrame e.received

-- At most one event for each descriptor.
abbrev pub IsDistinct : List Event → Type 0
IsDistinct [] = Unit
IsDistinct (e ∷ es) = All (λ (x : Event). x.fd ≢ e.fd) es × IsDistinct es

remove_handler-IsServing : (fd : ℕ) (s : IoLoop) → IsServing s → IsServing (remove_handler fd s)
unfolding remove_handler
remove_handler-IsServing fd s v = record {
  handled = λ j i h. elim (Bool-cases (fd == j)) [
    | inl e ↦ absurd (ground arith)
    | inr e ↦ let r = v.handled j i (ground arith) in (r.0, rw e r.1)
  ];
  reports = λ j i h. elim (Bool-cases (fd == j)) [
    | inl e ↦ absurd (ground arith)
    | inr e ↦ v.reports j i (ground arith)
  ];
  sized = λ j g h. elim (Bool-cases (fd == j)) [
    | inl e ↦ absurd (ground arith)
    | inr e ↦ v.sized j g (ground arith)
  ];
}

-- A new handler of a descriptor, in the set or not.
set_handler-IsServing :
    (fd : ℕ) (g : Handler) (s : IoLoop) (ts : List Task)
    → IsSized g
    → IsServing s
    → IsServing (record s { handlers = update fd (some g) s.handlers; tasks = ts })
set_handler-IsServing fd g s ts size v = record {
  handled = λ j i h. elim (Bool-cases (fd == j)) [
    | inl e ↦ (g, rw e refl)
    | inr e ↦ let r = v.handled j i h in (r.0, rw e r.1)
  ];
  reports = λ j i h. v.reports j i h;
  sized = λ j x h. elim (Bool-cases (fd == j)) [
    | inl e ↦ let q : g ≡ x = ground arith in subst IsSized q size
    | inr e ↦ v.sized j x (ground arith)
  ];
}

pub add_handler-IsServing :
    (fd : ℕ) (g : Handler) (s : IoLoop) → IsSized g → IsServing s → IsServing (add_handler fd g s)
unfolding add_handler
add_handler-IsServing fd g s size v =
    let w = set_handler-IsServing fd g s s.tasks size v in
    record {
      handled = λ j i h. elim (Bool-cases (fd == j)) [
        | inl e ↦ (g, rw e refl)
        | inr e ↦ let r = v.handled j i (ground arith) in (r.0, rw e r.1)
      ];
      reports = λ j i h. elim (Bool-cases (fd == j)) [
        | inl e ↦ elim (Option-cases (s.epoll fd)) [
          | inl n ↦ ground arith
          | inr (i', n) ↦ let r = v.reports fd i' n in ground arith
        ]
        | inr e ↦ v.reports j i (ground arith)
      ];
      sized = λ j x h. w.sized j x h;
    }

-- What the handling of an event at a descriptor leaves: it returns, the loop is served, and every other
-- descriptor is still in the set.
abbrev pub Serves : ℕ → IoLoop → Outcome IoLoop → Type 0
Serves fd s r =
    (s' : IoLoop) × (r ≡ returned s')
    × IsServing s'
    × ((j : ℕ) (i : Interest) → j ≢ fd → s.epoll j ≡ some i → s'.epoll j ≡ some i)

trans_buff2_obj-eq-some :
    (b : Bytes) (o : TransObj) {text : Bytes}
    → size_of_trans_obj ≤ length b
    → c_string (drop 20 b) ≡ some text
    → (r : Bool × TransObj) × (trans_buff2_obj (some b) o ≡ some r)
unfolding trans_buff2_obj
trans_buff2_obj-eq-some b o {text} h t = elim (Option-cases (trans_buff2_obj (some b) o)) [
  | inl e ↦ absurd (ground (arith, le→ltb size_of_trans_obj (length b) h))
  | inr e ↦ e
]

removes :
    (fd : ℕ) (s : IoLoop)
    → (j : ℕ) (i : Interest) → j ≢ fd
    → s.epoll j ≡ some i
    → (remove_handler fd s).epoll j ≡ some i
unfolding remove_handler
removes fd s j i n h = ground arith

adds :
    (fd c : ℕ) (g : Handler) (s : IoLoop)
    → (j : ℕ) (i : Interest) → j ≢ fd
    → s.epoll j ≡ some i
    → (add_handler c g s).epoll j ≡ some i
unfolding add_handler
adds fd c g s j i n h = elim (Bool-cases (c == j)) [ inl e ↦ ground arith | inr e ↦ ground arith ]

module _ (junk : ℕ) (junk_buffer : Bytes) (size : length junk_buffer ≡ buffer_size) where
  on_recv-Serves :
      (fd : ℕ) (received : Option Bytes) (h : Echo) (s : IoLoop)
      → IsFrame received
      → length h.buffer ≡ buffer_size
      → IsServing s
      → Serves fd s (on_recv junk junk_buffer fd received h s)
  unfolding on_recv on_obj
  on_recv-Serves fd none h s f l v =
      (remove_handler fd s, refl, remove_handler-IsServing fd s v, removes fd s)
  on_recv-Serves fd (some chunk) h s (text, n, t) l v =
      let whole : overwrite chunk h.buffer ≡ chunk = overwrite_all chunk h.buffer (n ∙ sym l) in
      let r = trans_buff2_obj-eq-some chunk new_default {text = text} (omega arith) t in
      let ts = s.tasks ++ tasks_of (server_handle (some r.0.1) (pos fd)) in
      let g = echo_handler (record { received = length chunk; buffer = chunk }) in
      (
        record s { handlers = update fd (some g) s.handlers; tasks = ts },
        rw (whole, r.1) refl,
        set_handler-IsServing fd g s ts n v,
        λ j i d k. k,
      )

  echo_handle-Serves :
      (e : Event) (h : Echo) (s : IoLoop)
      → e.writable ≡ false
      → IsFrame e.received
      → length h.buffer ≡ buffer_size
      → IsServing s
      → Serves e.fd s (echo_handle junk junk_buffer e h s)
  unfolding echo_handle
  echo_handle-Serves e h s out f l v = elim (Bool-cases e.hup) [
    | inl hup ↦
        (remove_handler e.fd s, rw hup refl, remove_handler-IsServing e.fd s v, removes e.fd s)
    | inr up ↦ elim (Bool-cases e.err) [
      | inl err ↦ (s, simp (up, err), v, λ j i d k. k)
      | inr ok ↦ elim (Bool-cases e.readable) [
        | inl readable ↦
            let r = on_recv-Serves e.fd e.received h s f l v in
            (r.0, simp (up, ok, readable, out, r.1), r.2, r.3)
        | inr idle ↦ (s, simp (up, ok, idle, out), v, λ j i d k. k)
      ]
    ]
  ]

  accept-Serves :
      (fd : ℕ) (accepted : Option ℕ) (s : IoLoop)
      → IsServing s
      → Serves fd s (returned (server_accept junk junk_buffer accepted s))
  unfolding server_accept
  accept-Serves fd none s v = (s, refl, v, λ j i d k. k)
  accept-Serves fd (some c) s v =
      let g = echo_handler (record { received = 0; buffer = junk_buffer }) in
      (add_handler c g s, refl, add_handler-IsServing c g s size v, adds fd c g s)

  call_handler-Serves :
      (e : Event) (g : Handler) (s : IoLoop)
      → e.writable ≡ false
      → IsFrame e.received
      → IsSized g
      → IsServing s
      → Serves e.fd s (call_handler junk junk_buffer e (some g) s)
  unfolding call_handler
  call_handler-Serves e (echo_handler h) s out f l v = echo_handle-Serves e h s out f l v
  call_handler-Serves e server_handler s out f l v = accept-Serves e.fd e.accepted s v

  pub dispatch-Serves :
      (e : Event) (s : IoLoop)
      → IsReported s e
      → IsServing s
      → Serves e.fd s (dispatch junk junk_buffer e s)
  unfolding dispatch
  dispatch-Serves e s p v =
      let i = v.reports p.place p.interest p.kept in
      let at : e.fd ≡ p.place = ground arith in
      let out : e.writable ≡ false = ground arith in
      let g = v.handled p.place p.interest p.kept in
      let here : s.handlers e.fd ≡ some g.0 = ap s.handlers at ∙ g.1 in
      let r = call_handler-Serves e g.0 s out p.frame (v.sized p.place g.0 g.1) v in
      (r.0, rw here r.1, r.2, r.3)
