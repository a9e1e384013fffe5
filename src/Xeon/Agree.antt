-- ===== src/Xeon/Agree.antt =====
-- The port for Xeon returns what the generic port returns, as long as the tables know the cores.
use ssmp.Base.{
  ℕ, ◌≤◌, ◌<◌, ◌≡◌, refl, Bool, true, false, not, Option, none, some, arith, ◌∙◌, inl, inr, length,
  dec_lt, Option-cases, get_elem?_beyond, every_below, every_below_sound, if◌then◌else◌, ◌==◌, ltb,
}
use ssmp.Base.Outcome.{fault}
use ssmp.Message.{Msg, Slots}
use ssmp.ColorBuf.{ColorBuf, IsFilled}
use ssmp.Poll.{Env}
use ssmp.Poll.Scan.{scan_cong}
use ssmp.Generic
use ssmp.Generic.Atomic.{color_probe-atomic}
use ssmp.Xeon.{
  id_to_core, id_to_node, numbers, node_of, cores_on_same_socket, recv_from, color_probe,
  recv_color, send,
}

-- the cores that both tables know
abbrev known : ℕ
known = 80

is_some {ℓ} : {A : Type ℓ} → Option A → Bool
is_some none = false
is_some (some a) = true

node_check :
    every_below 256 (λ c. if ltb c 80 then is_some (node_of c) else not (is_some (node_of c)))
    ≡ true
unfolding node_of id_to_core id_to_node numbers is_some every_below
node_check = refl

is_some-true {ℓ} : {A : Type ℓ} (o : Option A) → is_some o ≡ true → (a : A) × (o ≡ some a)
unfolding is_some
is_some-true none h = absurd (cc)
is_some-true (some a) h = (a, refl)

not-is_some {ℓ} : {A : Type ℓ} (o : Option A) → not (is_some o) ≡ true → o ≡ none
unfolding is_some
not-is_some none h = refl
not-is_some (some a) h = absurd (cc)

abbrev check_at : ℕ → Bool
check_at c = if ltb c 80 then is_some (node_of c) else not (is_some (node_of c))

node_of-known : (core : ℕ) → core < 80 → (node : ℕ) × (node_of core ≡ some node)
node_of-known core lt =
    let table : check_at core ≡ true =
      every_below_sound 256 check_at node_check core (omega arith) in
    is_some-true (node_of core) (ground (arith, table))

length-id_to_core : length id_to_core ≡ 256
unfolding id_to_core numbers
length-id_to_core = refl

-- `id_to_node` has 80 entries: for every other core the port reads past the end of a table.
pub node_of-unknown : (core : ℕ) → 80 ≤ core → node_of core ≡ none
unfolding node_of
node_of-unknown core le = elim (dec_lt core 256) [
  | yes lt ↦
      let table : check_at core ≡ true = every_below_sound 256 check_at node_check core lt in
      not-is_some (node_of core) (ground (arith, table))
  | no ge ↦ ground (arith, get_elem?_beyond id_to_core core (ground (arith, length-id_to_core)))
]

cores_on_same_socket-known :
    (a b : ℕ) → a < 80 → b < 80 → (same : Bool) × (cores_on_same_socket a b ≡ some same)
unfolding cores_on_same_socket
cores_on_same_socket-known a b lta ltb' =
    let (na, ea) = node_of-known a lta in
    let (nb, eb) = node_of-known b ltb' in (na == nb, ground (arith, ea, eb))

pub cores_on_same_socket-unknown : (a b : ℕ) → 80 ≤ b → cores_on_same_socket a b ≡ none
unfolding cores_on_same_socket
cores_on_same_socket-unknown a b le = elim (Option-cases (node_of a)) [
  | inl e ↦ ground (arith, e)
  | inr (na, e) ↦ ground (arith, e, node_of-unknown b le)
]

-- Between processes with ids below 80, `ssmp_send` of the port for Xeon is that of the generic
-- port, by a compare-and-swap exactly if their cores are on two sockets.
pub send-Generic :
    (id to : ℕ)
    → id < 80
    → to < 80
    → (env : Env Slots) (fuel : ℕ) (msg : Msg) (s : Slots)
    → (same : Bool) × (cores_on_same_socket id to ≡ some same)
      × (send id env fuel to msg s ≡ Generic.send (not same) env fuel to msg s)
unfolding send Generic.send
send-Generic id to lt lt' env fuel msg s =
    let (same, e) = cores_on_same_socket-known id to lt lt' in (same, e, ground (arith, e))

-- The same for `ssmp_recv_from`.
pub recv_from-Generic :
    (id from : ℕ)
    → id < 80
    → from < 80
    → (env : Env Slots) (fuel : ℕ) (s : Slots)
    → (same : Bool) × (cores_on_same_socket id from ≡ some same)
      × (recv_from id env fuel from s ≡ Generic.recv_from (not same) env fuel from s)
unfolding recv_from Generic.recv_from
recv_from-Generic id from lt lt' env fuel s =
    let (same, e) = cores_on_same_socket-known id from lt lt' in (same, e, ground (arith, e))

-- On Xeon, `ssmp_send` to a process with an id of 80 or more reads past the table `id_to_node`,
-- and so sends nothing.
pub send_unknown :
    (id to : ℕ)
    → 80 ≤ to
    → (env : Env Slots) (fuel : ℕ) (msg : Msg) (s : Slots) → send id env fuel to msg s ≡ fault
unfolding send
send_unknown id to le env fuel msg s = ground (arith, cores_on_same_socket-unknown id to le)

by_load_or_not :
    (cbuf : ColorBuf) (peer : ℕ → ℕ)
    → IsFilled cbuf peer
    → (i : ℕ) (s : Slots) → i < cbuf.num_ues
    → (atomic : Bool) → Generic.color_probe atomic cbuf i s ≡ Generic.color_probe false cbuf i s
by_load_or_not cbuf peer filled i s lt true = color_probe-atomic cbuf peer filled i s lt
by_load_or_not cbuf peer filled i s lt false = refl

color_probe-Generic :
    (id : ℕ) (cbuf : ColorBuf) (peer : ℕ → ℕ)
    → IsFilled cbuf peer
    → id < 80
    → cbuf.num_ues ≤ 80
    → (i : ℕ) (s : Slots) → i < cbuf.num_ues
    → color_probe id cbuf i s ≡ Generic.color_probe false cbuf i s
unfolding color_probe Generic.color_probe
color_probe-Generic id cbuf peer filled lt few i s lti =
    let (same, e) = cores_on_same_socket-known id i lt (omega arith) in
    let core : color_probe id cbuf i s ≡ Generic.color_probe (not same) cbuf i s =
      ground (arith, e) in
    core ∙ by_load_or_not cbuf peer filled i s lti (not same)

-- Over a filled color buffer of at most 80 entries, in a process with an id below 80,
-- `ssmp_recv_color` of the port for Xeon returns what it returns in the generic port without
-- USE_ATOMIC.
pub recv_color-Generic :
    (id : ℕ) (cbuf : ColorBuf) (peer : ℕ → ℕ)
    → IsFilled cbuf peer
    → id < 80
    → cbuf.num_ues ≤ 80
    → (env : Env Slots) (fuel : ℕ) (s : Slots)
    → recv_color id env cbuf fuel s ≡ Generic.recv_color false env cbuf fuel s
unfolding recv_color Generic.recv_color
recv_color-Generic id cbuf peer filled lt few env fuel s =
    scan_cong env cbuf.num_ues (color_probe id cbuf) (Generic.color_probe false cbuf)
      (λ i s' lti. color_probe-Generic id cbuf peer filled lt few i s' lti) fuel 0 0 s
