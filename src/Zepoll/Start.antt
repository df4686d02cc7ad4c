-- ===== src/Zepoll/Start.antt =====
-- How the server starts: the constructors of IOLoop and ServerHandler in smer/Server/inc/Zepoll.h. What
-- the calls of the kernel give is an argument: whether epoll_create1 succeeds, the descriptor that socket
-- gives, whether bind and listen succeed at a port and a backlog, and the flags of the socket.
use ifellsofuckinggood.Prelude.{
  ℕ, ◌+◌, ◌-◌, ◌*◌, ◌/◌, ◌%◌, ◌≡◌, ◌⊎◌, refl, ℤ, pos, negsuc, Bool, true, false, Option, none, some,
  ◌==◌, if◌then◌else◌, inl, inr, Bool-cases, arith,
}
use ifellsofuckinggood.Zepoll.{server_handler, IoLoop, add_handler, new, listening}

-- The program goes on, or ends with an exit status.
pub data Started {ℓ} (A : Type ℓ) : Type ℓ where
  running : A → Started A
  ended : ℕ → Started A

-- MAX_PENDING
abbrev pub max_pending : ℕ
max_pending = 1024

-- O_NONBLOCK
abbrev pub o_nonblock : ℕ
o_nonblock = 2048

-- The listening socket as the kernel keeps it.
pub record Listener : Type 0 where
  pub fd : ℕ
  pub port : ℕ
  pub backlog : ℕ
  pub flags : ℕ

-- IOLoop::IOLoop
unfoldable pub make_loop : Bool → Started IoLoop
make_loop true = running new
make_loop false = ended 1

-- An int as the 16 bits of a port.
unfoldable pub htons : ℤ → ℕ
htons (pos n) = n % 65536
htons (negsuc n) = 65535 - n % 65536

-- flags | O_NONBLOCK
unfoldable pub set_nonblocking : ℕ → ℕ
set_nonblocking flags = if flags / o_nonblock % 2 == 1 then flags else flags + o_nonblock

-- IOLoop::Instance: the first call makes the loop. `created` is whether epoll_create1 succeeds.
unfoldable pub instance_of : Bool → Option IoLoop → Started IoLoop
unfolding make_loop
instance_of created none = make_loop created
instance_of created (some s) = running s

serve_on : Listener → Started IoLoop → Started (Listener × IoLoop)
unfolding add_handler
serve_on l (running s) = running (l, add_handler l.fd server_handler s)
serve_on l (ended status) = ended status

on_listen : Bool → Bool → Listener → Option IoLoop → Started (Listener × IoLoop)
unfolding serve_on instance_of set_nonblocking
on_listen false created l s = ended 1
on_listen true created l s =
    serve_on (record l { backlog = max_pending; flags = set_nonblocking l.flags })
      (instance_of created s)

on_bind : Bool → (ℕ → Bool) → Bool → Listener → Option IoLoop → Started (Listener × IoLoop)
unfolding on_listen
on_bind false listens created l s = ended 1
on_bind true listens created l s = on_listen (listens max_pending) created l s

-- ServerHandler::ServerHandler; a fresh socket has no backlog, and the flags that it is made with.
unfoldable pub make_server :
    Option ℕ → (ℕ → Bool) → (ℕ → Bool) → Bool → ℕ → ℤ → Option IoLoop → Started (Listener × IoLoop)
unfolding on_bind htons
make_server none binds listens created flags port s = ended 1
make_server (some fd) binds listens created flags port s =
    on_bind (binds (htons port)) listens created
      (record { fd = fd; port = htons port; backlog = 0; flags = flags }) s

set_nonblocking-bits :
    (flags : ℕ)
    → (set_nonblocking flags / o_nonblock % 2 ≡ 1)
      × (set_nonblocking flags % o_nonblock ≡ flags % o_nonblock)
      × (set_nonblocking flags / (2 * o_nonblock) ≡ flags / (2 * o_nonblock))
unfolding set_nonblocking
set_nonblocking-bits flags = (ground arith, ground arith, ground arith)

-- Which of the calls failed.
abbrev pub Fails : Option ℕ → (ℕ → Bool) → (ℕ → Bool) → Bool → ℤ → Type 0
Fails socket binds listens created port =
    (socket ≡ none)
    ⊎ ((binds (htons port) ≡ false) ⊎ ((listens max_pending ≡ false) ⊎ (created ≡ false)))

-- The socket that the calls made, not blocking, with its other flags kept.
pub record IsListening (socket : Option ℕ) (binds listens : ℕ → Bool) (flags : ℕ) (port : ℤ)
    (l : Listener) : Type 0 where
  pub made : socket ≡ some l.fd
  pub bound : binds l.port ≡ true
  pub listens_at : listens l.backlog ≡ true
  pub at_port : l.port ≡ htons port
  pub nonblocking : l.flags / o_nonblock % 2 ≡ 1
  pub low_flags : l.flags % o_nonblock ≡ flags % o_nonblock
  pub high_flags : l.flags / (2 * o_nonblock) ≡ flags / (2 * o_nonblock)

-- On no loop yet, the constructor of the server's handler ends the program with the status 1 where
-- socket, bind, listen or epoll_create1 fails. Where none of them does, the loop is the one with the
-- listening descriptor and nothing else; the socket is bound to the port's low 16 bits; and its flags
-- are the old ones with the bit of O_NONBLOCK set, the other bits kept.
pub make_server-total :
    (socket : Option ℕ) (binds listens : ℕ → Bool) (created : Bool) (flags : ℕ) (port : ℤ)
    → ((make_server socket binds listens created flags port none ≡ ended 1)
        × Fails socket binds listens created port)
      ⊎ ((l : Listener) × (make_server socket binds listens created flags port none
            ≡ running (l, listening l.fd))
          × IsListening socket binds listens flags port l)
unfolding make_server on_bind on_listen serve_on instance_of make_loop listening
make_server-total none binds listens created flags port = inl (refl, inl refl)
make_server-total (some fd) binds listens created flags port =
    elim (Bool-cases (binds (htons port))) [
      | inr b ↦ inl (rw b refl, inr (inl b))
      | inl b ↦ elim (Bool-cases (listens max_pending)) [
        | inr l ↦ inl (rw b (rw l refl), inr (inr (inl l)))
        | inl l ↦ elim (Bool-cases created) [
          | inr c ↦ inl (simp (b, l, c), inr (inr (inr c)))
          | inl c ↦
              let bits = set_nonblocking-bits flags in
              inr (
                record {
                  fd = fd;
                  port = htons port;
                  backlog = max_pending;
                  flags = set_nonblocking flags;
                },
                simp (b, l, c),
                record {
                  made = refl;
                  bound = b;
                  listens_at = l;
                  at_port = refl;
                  nonblocking = bits.0;
                  low_flags = bits.1;
                  high_flags = bits.2;
                },
              )
        ]
      ]
    ]
