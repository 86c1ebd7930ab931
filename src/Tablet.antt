-- ===== src/Tablet.antt =====
-- src/tablet.rs: tablets and their replicas, and how they are read from messages, with the identifiers
-- of src/lib.rs. An identifier is the bytes of its UUID, whose parser is of the crate uuid.
use kudu_rs.Base.{
  Bool, List, Option, Outcome, [], err, false, if◌then◌else◌, none, ok, serialization, some, ℕ, ◌%◌,
  ◌>>=◌, ◌^◌, ◌||◌, ◌∷◌,
}
use kudu_rs.ByteOrder.{BigEndian, LittleEndian}
use kudu_rs.Dns.{IpAddr, SocketAddr, ip, is_local_addr, resolve_hostports}
use kudu_rs.Key.Partitions.{PartitionSchema}
use kudu_rs.Partition.{Partition, PartitionPb, partition_from_pb}
use kudu_rs.Row.{VecMap}
use kudu_rs.Schema.{Schema}
use kudu_rs.Types.{RaftRole, RaftRolePb, role_from_pb}

module _ (is_utf8 : List ℕ → Bool) (parse_uuid : List ℕ → Option (List ℕ)) where
  unfoldable pub parse : List ℕ → Outcome (List ℕ)
  parse input = elim (parse_uuid input) [ none ↦ err serialization | some id ↦ ok id ]

  unfoldable pub parse_bytes : List ℕ → Outcome (List ℕ)
  unfolding parse
  parse_bytes input = if is_utf8 input then parse input else err serialization

pub record ReplicaPb : Type 0 where
  pub pb_permanent_uuid : List ℕ
  pub pb_rpc_addresses : List (List ℕ × ℕ)
  pub pb_role : RaftRolePb

pub record Replica : Type 0 where
  pub replica_id : List ℕ
  pub rpc_addrs : List (List ℕ × ℕ)
  pub resolved_rpc_addrs : List SocketAddr
  pub role : RaftRole
  pub is_local : Bool

pub record TabletPb : Type 0 where
  pub pb_tablet_id : List ℕ
  pub pb_partition : PartitionPb
  pub pb_replicas : List ReplicaPb

pub record Tablet (M : Type 0) : Type 0 where
  pub tablet_id : List ℕ
  pub partition : Partition M
  pub replicas : List Replica

-- `as u16` of a port.
unfoldable pub addrs_from_pb : List (List ℕ × ℕ) → List (List ℕ × ℕ)
addrs_from_pb [] = []
addrs_from_pb ((host, port) ∷ rest) = (host, port % 2 ^ 16) ∷ addrs_from_pb rest

unfoldable pub any_local : List IpAddr → List SocketAddr → Bool
any_local local_addrs [] = false
any_local local_addrs (a ∷ rest) = is_local_addr local_addrs (ip a) || any_local local_addrs rest

-- What hosts are resolved to and the local addresses are the operating system's.
module _ (is_utf8 : List ℕ → Bool) (parse_uuid : List ℕ → Option (List ℕ))
    (to_socket_addrs : List ℕ × ℕ → Option (List SocketAddr)) (local_addrs : List IpAddr) where
  unfoldable pub replica_from_pb : ReplicaPb → Outcome Replica
  unfolding addrs_from_pb any_local
  replica_from_pb pb = do
    id ← parse_bytes is_utf8 parse_uuid pb.pb_permanent_uuid
    let addrs = addrs_from_pb pb.pb_rpc_addresses
    let resolved = resolve_hostports to_socket_addrs addrs
    ok (record {
      replica_id = id;
      rpc_addrs = addrs;
      resolved_rpc_addrs = resolved;
      role = role_from_pb pb.pb_role;
      is_local = any_local local_addrs resolved;
    })

  unfoldable pub replicas_from_pb : List ReplicaPb → Outcome (List Replica)
  unfolding replica_from_pb
  replicas_from_pb [] = ok []
  replicas_from_pb (pb ∷ pbs) = do
    replica ← replica_from_pb pb
    rest ← replicas_from_pb pbs
    ok (replica ∷ rest)

  module _ {M : Type 0} (vec_map : VecMap M) (big_endian : BigEndian)
      (little_endian : LittleEndian) where
    unfoldable pub tablet_from_pb : Schema → PartitionSchema → TabletPb → Outcome (Tablet M)
    unfolding replicas_from_pb
    tablet_from_pb primary_key_schema partition_schema pb = do
      id ← parse_bytes is_utf8 parse_uuid pb.pb_tablet_id
      partition ←
          partition_from_pb vec_map big_endian little_endian is_utf8 primary_key_schema
            partition_schema pb.pb_partition
      replicas ← replicas_from_pb pb.pb_replicas
      ok (record { tablet_id = id; partition = partition; replicas = replicas })
