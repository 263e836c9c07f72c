-- ===== src/Mechanism/Symmetric.antt =====
-- Which sockets talk to each other.
use zeromq.Prelude.{◌≡◌, refl}
use zeromq.Mechanism.{
  SocketType, zmq_pair, zmq_pub, zmq_sub, zmq_req, zmq_rep, zmq_dealer, zmq_router, zmq_pull,
  zmq_push, zmq_xpub, zmq_xsub, zmq_stream, zmq_server, zmq_client, zmq_radio, zmq_dish, zmq_gather,
  zmq_scatter, zmq_dgram, socket_type_string, peers, check_socket_type,
}

abbrev Agree : SocketType → SocketType → Type 0
Agree a b = check_socket_type a (socket_type_string b) ≡ check_socket_type b (socket_type_string a)

agree : (a b : SocketType) → Agree a b
unfolding check_socket_type peers socket_type_string
agree zmq_pair b = elim b as (λ y. Agree zmq_pair y) [ zmq_pair ↦ refl | _ ↦ refl ]
agree zmq_pub b = elim b as (λ y. Agree zmq_pub y) [ zmq_pair ↦ refl | _ ↦ refl ]
agree zmq_sub b = elim b as (λ y. Agree zmq_sub y) [ zmq_pair ↦ refl | _ ↦ refl ]
agree zmq_req b = elim b as (λ y. Agree zmq_req y) [ zmq_pair ↦ refl | _ ↦ refl ]
agree zmq_rep b = elim b as (λ y. Agree zmq_rep y) [ zmq_pair ↦ refl | _ ↦ refl ]
agree zmq_dealer b = elim b as (λ y. Agree zmq_dealer y) [ zmq_pair ↦ refl | _ ↦ refl ]
agree zmq_router b = elim b as (λ y. Agree zmq_router y) [ zmq_pair ↦ refl | _ ↦ refl ]
agree zmq_pull b = elim b as (λ y. Agree zmq_pull y) [ zmq_pair ↦ refl | _ ↦ refl ]
agree zmq_push b = elim b as (λ y. Agree zmq_push y) [ zmq_pair ↦ refl | _ ↦ refl ]
agree zmq_xpub b = elim b as (λ y. Agree zmq_xpub y) [ zmq_pair ↦ refl | _ ↦ refl ]
agree zmq_xsub b = elim b as (λ y. Agree zmq_xsub y) [ zmq_pair ↦ refl | _ ↦ refl ]
agree zmq_stream b = elim b as (λ y. Agree zmq_stream y) [ zmq_pair ↦ refl | _ ↦ refl ]
agree zmq_server b = elim b as (λ y. Agree zmq_server y) [ zmq_pair ↦ refl | _ ↦ refl ]
agree zmq_client b = elim b as (λ y. Agree zmq_client y) [ zmq_pair ↦ refl | _ ↦ refl ]
agree zmq_radio b = elim b as (λ y. Agree zmq_radio y) [ zmq_pair ↦ refl | _ ↦ refl ]
agree zmq_dish b = elim b as (λ y. Agree zmq_dish y) [ zmq_pair ↦ refl | _ ↦ refl ]
agree zmq_gather b = elim b as (λ y. Agree zmq_gather y) [ zmq_pair ↦ refl | _ ↦ refl ]
agree zmq_scatter b = elim b as (λ y. Agree zmq_scatter y) [ zmq_pair ↦ refl | _ ↦ refl ]
agree zmq_dgram b = elim b as (λ y. Agree zmq_dgram y) [ zmq_pair ↦ refl | _ ↦ refl ]

-- A socket accepts another by its type exactly if the other accepts it.
pub check_socket_type_comm :
    (a b : SocketType)
    → check_socket_type a (socket_type_string b) ≡ check_socket_type b (socket_type_string a)
check_socket_type_comm a b = agree a b
