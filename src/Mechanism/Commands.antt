-- ===== src/Mechanism/Commands.antt =====
-- What each side reads in the commands of the other.
use Prim.{tt}
use zeromq.Prelude.{
  append-nil, take-length, drop-length, ℕ, ◌+◌, ◌^◌, ◌<◌, ◌≤◌, ◌≡◌, refl, ap, ◌∙◌, inl, inr, true,
  false, ◌&&◌, some, List, [], ◌∷◌, ◌++◌, length, All, ltb, lt→ltb, ge→ltb, arith, if◌then◌else◌,
  Bool-cases, length-append, take-append_exact, drop-append_exact,
}
use zeromq.Wire.{put_uint32}
use zeromq.Mechanism.{
  Mechanism, Settings, SocketType, zmq_pair, ok, Dict, check_socket_type, socket_type_string,
  socket_type_name, identity_name, check_property, store_property, unless_failed, parse_metadata,
  add_property,
}
use zeromq.Mechanism.Metadata.{Fits, add_all, accept_all, parse_metadata-add_all}
use zeromq.Mechanism.PlainClient.{hello, tells_identity, own_properties, produce_hello}
use zeromq.Mechanism.PlainServer.{credentials}

-- What a socket tells of itself.
abbrev told : Settings → Dict
told o =
    (socket_type_name, socket_type_string o.type)
    ∷ (if tells_identity o.type then (identity_name, o.identity) ∷ [] else [])

own_properties_lem : (o : Settings) → own_properties o ≡ add_all (told o)
unfolding own_properties
own_properties_lem o = elim (Bool-cases (tells_identity o.type)) [
  | inl t ↦ rw (t, append-nil (add_property identity_name o.identity)) refl
  | inr f ↦ rw f refl
]

abbrev pub identity_for : Settings → Mechanism → List ℕ
identity_for o m =
    if tells_identity o.type && m.options.recv_identity then o.identity else m.peer_identity

-- Another socket that fits takes over the identity, if there is one and it wants it.
takes_over :
    (o : Settings) (m : Mechanism)
    → check_socket_type m.options.type (socket_type_string o.type) ≡ true
    → (m' : Mechanism) × (accept_all false (told o) m ≡ (ok, m'))
      × (m'.peer_identity ≡ identity_for o m)
      × (m'.options ≡ m.options)
unfolding accept_all check_property store_property unless_failed
takes_over o m fits =
    let a = store_property false socket_type_name (socket_type_string o.type) m in
    let known : Mechanism = record a { peer_identity = o.identity } in
    elim (Bool-cases (tells_identity o.type)) [
      | inr f ↦ (a, rw (f, fits) refl, rw f refl, refl)
      | inl t ↦ elim (Bool-cases m.options.recv_identity) [
        | inl r ↦ (
          store_property false identity_name o.identity known,
          rw (t, fits, r) refl,
          rw (t, r) refl,
          refl,
        )
        | inr n ↦ (
          store_property false identity_name o.identity a,
          rw (t, fits, n) refl,
          rw (t, n) refl,
          refl,
        )
      ]
    ]

string_bound : (t : SocketType) → length (socket_type_string t) ≤ 7
unfolding socket_type_string
string_bound t = elim t as (λ x. length (socket_type_string x) ≤ 7) [
  | zmq_pair ↦ omega arith
  | _ ↦ omega arith
]

told-Fits : (o : Settings) → length o.identity < 2 ^ 31 → All Fits (told o)
told-Fits o h = elim (Bool-cases (tells_identity o.type)) [
  | inr f ↦ rw f (socket, tt)
  | inl t ↦ rw t (socket, (record { name_fits = omega arith; value_fits = h }, tt))
]
  where
    socket : Fits (socket_type_name, socket_type_string o.type)
    socket = record {
      name_fits = omega arith;
      value_fits = let b = string_bound o.type in omega arith;
    }

-- The metadata of one socket, as the other reads them.
pub parse_metadata-own_properties :
    (o : Settings) (m : Mechanism)
    → length o.identity < 2 ^ 31
    → check_socket_type m.options.type (socket_type_string o.type) ≡ true
    → (m' : Mechanism) × (parse_metadata false (own_properties o) m ≡ (ok, m'))
      × (m'.peer_identity ≡ identity_for o m)
      × (m'.options ≡ m.options)
parse_metadata-own_properties o m h fits =
    let (m', e, i, s) = takes_over o m fits in
    (
      m',
      ap (λ l. parse_metadata false l m) (own_properties_lem o)
          ∙ parse_metadata-add_all false (told o) m (told-Fits o h)
          ∙ e,
      i,
      s,
    )

abbrev pub hello_of : Settings → List ℕ
hello_of o =
    hello
    ++ (length o.plain_username
        ∷ (o.plain_username ++ (length o.plain_password ∷ o.plain_password)))

-- The server reads the username and the password that the client has.
pub credentials-produce_hello :
    (o : Settings)
    → length o.plain_username < 256
    → length o.plain_password < 256
    → (command : List ℕ) × (produce_hello o ≡ some command)
      × (credentials command ≡ some (o.plain_username, o.plain_password))
unfolding produce_hello credentials
credentials-produce_hello o hu hp =
    let u = o.plain_username in
    let p = o.plain_password in
    let l = length-append u (length p ∷ p) in
    let enough : ltb (length (u ++ (length p ∷ p))) (length u) ≡ false =
      ge→ltb (length (u ++ (length p ∷ p))) (length u) (omega (arith, l)) in
    let all : ltb (length p) (length p) ≡ false = ge→ltb (length p) (length p) (omega arith) in
    (
      hello_of o,
      rw (lt→ltb (length u) 256 hu, lt→ltb (length p) 256 hp) refl,
      rw
          (
            enough,
            take-append_exact u (length p ∷ p),
            drop-append_exact u (length p ∷ p),
            all,
            take-length p,
            drop-length p,
          )
          refl,
    )

-- The metadata of a command fit into the buffer of 512 bytes, behind a name of at most nine.
length-own_properties :
    (o : Settings) → length o.identity ≤ 255 → 9 + length (own_properties o) ≤ 512
unfolding own_properties add_property put_uint32
length-own_properties o h =
    let b = string_bound o.type in
    let l = length-append (socket_type_string o.type) (add_property identity_name o.identity) in
    let k = length-append (socket_type_string o.type) [] in
    elim (Bool-cases (tells_identity o.type)) [
      | inl t ↦ rw t (omega (arith, l))
      | inr f ↦ rw f (omega (arith, k))
    ]
