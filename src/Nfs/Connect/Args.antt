-- ===== src/Nfs/Connect/Args.antt =====
-- The arguments of the two operations that set up a session, and the functions of
-- dpfs_nfs/nfs_v4.c that fill them in. A pointer set to NULL with length 0 is an empty list.
use dpfs.Prelude.{ℕ, ◌^◌, List, [], ◌∷◌}

-- NFS4_MAXRESPONSESIZE and NFS4_MAXREQUESTSIZE, NFS4_MAX_OUTSTANDING_REQUESTS, and NFS4_MAX_OPS.
abbrev pub nfs4_maxsize : ℕ
nfs4_maxsize = 2 ^ 20

abbrev pub nfs4_max_outstanding_requests : ℕ
nfs4_max_outstanding_requests = 160

abbrev pub nfs4_max_ops : ℕ
nfs4_max_ops = 50

pub record ChannelAttrs : Type 0 where
  pub ca_headerpadsize : ℕ
  pub ca_maxrequestsize : ℕ
  pub ca_maxresponsesize : ℕ
  pub ca_maxresponsesize_cached : ℕ
  pub ca_maxoperations : ℕ
  pub ca_maxrequests : ℕ
  pub ca_rdma_ird : List ℕ

pub record CreateSessionArgs : Type 0 where
  pub csa_clientid : ℕ
  pub csa_sequence : ℕ
  pub csa_flags : ℕ
  pub csa_fore_chan_attrs : ChannelAttrs
  pub csa_back_chan_attrs : ChannelAttrs
  pub csa_cb_program : ℕ
  pub csa_sec_parms : List ℕ

-- The two channels differ in the number of requests alone: the client has no back channel.
abbrev pub channel_attrs : ℕ → ChannelAttrs
channel_attrs maxrequests = record {
  ca_headerpadsize = 0;
  ca_maxrequestsize = nfs4_maxsize;
  ca_maxresponsesize = nfs4_maxsize;
  ca_maxresponsesize_cached = 0;
  ca_maxoperations = nfs4_max_ops;
  ca_maxrequests = maxrequests;
  ca_rdma_ird = [];
}

unfoldable pub nfs4_op_createsession : ℕ → ℕ → CreateSessionArgs
nfs4_op_createsession clientid seqid = record {
  csa_clientid = clientid;
  csa_sequence = seqid;
  csa_flags = 0;
  csa_fore_chan_attrs = channel_attrs nfs4_max_outstanding_requests;
  csa_back_chan_attrs = channel_attrs 0;
  csa_cb_program = 0;
  csa_sec_parms = [];
}

-- `eia_state_protect` is SP4_NONE, and there is no implementation id.
pub record ExchangeIdArgs : Type 0 where
  pub co_verifier : List ℕ
  pub co_ownerid : List ℕ
  pub eia_flags : ℕ
  pub eia_client_impl_id : List ℕ

unfoldable pub nfs4_op_exchangeid : List ℕ → List ℕ → ExchangeIdArgs
nfs4_op_exchangeid verifier client_name = record {
  co_verifier = verifier;
  co_ownerid = client_name;
  eia_flags = 0;
  eia_client_impl_id = [];
}

-- The characters '0' to '7', and "virtionfs".
abbrev pub default_verifier : List ℕ
default_verifier = 48 ∷ 49 ∷ 50 ∷ 51 ∷ 52 ∷ 53 ∷ 54 ∷ 55 ∷ []

abbrev pub client_name : List ℕ
client_name = 118 ∷ 105 ∷ 114 ∷ 116 ∷ 105 ∷ 111 ∷ 110 ∷ 102 ∷ 115 ∷ []
