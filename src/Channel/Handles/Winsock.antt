-- ===== src/Channel/Handles/Winsock.antt =====
-- `WsaProtoInfo` of src/windows/mod.rs, the description of a socket for another process, as data. A
-- `c_int` is given by its 32 bits, and an array by its elements.
use sandbox_ipc.Prelude.{ℕ, ◌≡◌, refl, List, [], ◌∷◌, ◌++◌, length, append_assoc}
use sandbox_ipc.Prelude.Io.{Result, ok, ◌>>=◌}
use sandbox_ipc.Channel.Tokens.{Token, number, next_number, tokens_of, next_array, next_array_lem}

pub record Guid : Type 0 where
  pub data1 : ℕ
  pub data2 : ℕ
  pub data3 : ℕ
  pub data4 : List ℕ

pub record WsaProtocolChain : Type 0 where
  pub chain_len : ℕ
  pub chain_entries : List ℕ

pub record WsaProtoInfo : Type 0 where
  pub dw_service_flags1 : ℕ
  pub dw_service_flags2 : ℕ
  pub dw_service_flags3 : ℕ
  pub dw_service_flags4 : ℕ
  pub dw_provider_flags : ℕ
  pub provider_id : Guid
  pub dw_catalog_entry_id : ℕ
  pub protocol_chain : WsaProtocolChain
  pub i_version : ℕ
  pub i_address_family : ℕ
  pub i_max_sock_addr : ℕ
  pub i_min_sock_addr : ℕ
  pub i_socket_type : ℕ
  pub i_protocol : ℕ
  pub i_protocol_max_offset : ℕ
  pub i_network_byte_order : ℕ
  pub i_security_scheme : ℕ
  pub dw_message_size : ℕ
  pub dw_provider_reserved : ℕ
  pub sz_protocol : List ℕ

-- The lengths of the arrays.
pub record WellFormed (info : WsaProtoInfo) : Type 0 where
  pub data4_len : length info.provider_id.data4 ≡ 8
  pub entries_len : length info.protocol_chain.chain_entries ≡ 7
  pub protocol_len : length info.sz_protocol ≡ 256

-- `serde_guid`
unfoldable pub serialize_guid : Guid → List Token
serialize_guid g = number g.data1 ∷ number g.data2 ∷ number g.data3 ∷ tokens_of g.data4

unfoldable pub deserialize_guid : List Token → Result (Guid × List Token)
unfolding next_number
deserialize_guid tokens = do
  (data1, t₁) ← next_number tokens
  (data2, t₂) ← next_number t₁
  (data3, t₃) ← next_number t₂
  (data4, rest) ← next_array 8 t₃
  ok (record { data1 = data1; data2 = data2; data3 = data3; data4 = data4 }, rest)

unfoldable pub serialize_chain : WsaProtocolChain → List Token
serialize_chain c = number c.chain_len ∷ tokens_of c.chain_entries

unfoldable pub deserialize_chain : List Token → Result (WsaProtocolChain × List Token)
unfolding next_number
deserialize_chain tokens = do
  (chain_len, t₁) ← next_number tokens
  (chain_entries, rest) ← next_array 7 t₁
  ok (record { chain_len = chain_len; chain_entries = chain_entries }, rest)

-- The numbers after the chain, in order.
abbrev pub sizes : WsaProtoInfo → List ℕ
sizes info =
    info.i_version ∷ info.i_address_family ∷ info.i_max_sock_addr ∷ info.i_min_sock_addr
    ∷ info.i_socket_type ∷ info.i_protocol ∷ info.i_protocol_max_offset ∷ info.i_network_byte_order
    ∷ info.i_security_scheme ∷ info.dw_message_size ∷ info.dw_provider_reserved ∷ []

unfoldable pub serialize : WsaProtoInfo → List Token
serialize info =
    tokens_of (
      info.dw_service_flags1 ∷ info.dw_service_flags2 ∷ info.dw_service_flags3
      ∷ info.dw_service_flags4 ∷ info.dw_provider_flags ∷ [])
    ++ (serialize_guid info.provider_id
        ++ (number info.dw_catalog_entry_id
            ∷ (serialize_chain info.protocol_chain
                ++ (tokens_of (sizes info) ++ tokens_of info.sz_protocol))))

-- The last array is that of `serde_wchar256`.
unfoldable pub deserialize : List Token → Result (WsaProtoInfo × List Token)
unfolding next_number
deserialize tokens = do
  (flags1, t₁) ← next_number tokens
  (flags2, t₂) ← next_number t₁
  (flags3, t₃) ← next_number t₂
  (flags4, t₄) ← next_number t₃
  (provider_flags, t₅) ← next_number t₄
  (provider_id, t₆) ← deserialize_guid t₅
  (catalog_entry_id, t₇) ← next_number t₆
  (protocol_chain, t₈) ← deserialize_chain t₇
  (version, t₉) ← next_number t₈
  (address_family, u₁) ← next_number t₉
  (max_sock_addr, u₂) ← next_number u₁
  (min_sock_addr, u₃) ← next_number u₂
  (socket_type, u₄) ← next_number u₃
  (protocol, u₅) ← next_number u₄
  (protocol_max_offset, u₆) ← next_number u₅
  (network_byte_order, u₇) ← next_number u₆
  (security_scheme, u₈) ← next_number u₇
  (message_size, u₉) ← next_number u₈
  (provider_reserved, v₁) ← next_number u₉
  (sz_protocol, rest) ← next_array 256 v₁
  ok (
    record {
      dw_service_flags1 = flags1;
      dw_service_flags2 = flags2;
      dw_service_flags3 = flags3;
      dw_service_flags4 = flags4;
      dw_provider_flags = provider_flags;
      provider_id = provider_id;
      dw_catalog_entry_id = catalog_entry_id;
      protocol_chain = protocol_chain;
      i_version = version;
      i_address_family = address_family;
      i_max_sock_addr = max_sock_addr;
      i_min_sock_addr = min_sock_addr;
      i_socket_type = socket_type;
      i_protocol = protocol;
      i_protocol_max_offset = protocol_max_offset;
      i_network_byte_order = network_byte_order;
      i_security_scheme = security_scheme;
      dw_message_size = message_size;
      dw_provider_reserved = provider_reserved;
      sz_protocol = sz_protocol;
    },
    rest,
  )

deserialize_guid_lem :
    (g : Guid) (rest : List Token)
    → length g.data4 ≡ 8
    → deserialize_guid (serialize_guid g ++ rest) ≡ ok (g, rest)
unfolding deserialize_guid serialize_guid
deserialize_guid_lem g rest e = rw (next_array_lem g.data4 rest 8 e) refl

deserialize_chain_lem :
    (c : WsaProtocolChain) (rest : List Token)
    → length c.chain_entries ≡ 7
    → deserialize_chain (serialize_chain c ++ rest) ≡ ok (c, rest)
unfolding deserialize_chain serialize_chain
deserialize_chain_lem c rest e = rw (next_array_lem c.chain_entries rest 7 e) refl

pub deserialize-serialize :
    (info : WsaProtoInfo) (rest : List Token)
    → WellFormed info
    → deserialize (serialize info ++ rest) ≡ ok (info, rest)
unfolding deserialize serialize
deserialize-serialize info rest wf =
    let tail = tokens_of (sizes info) ++ tokens_of info.sz_protocol in
    let chain = serialize_chain info.protocol_chain in
    let middle = number info.dw_catalog_entry_id ∷ (chain ++ tail) in
    rw (append_assoc (serialize_guid info.provider_id) middle rest) (
      rw (deserialize_guid_lem info.provider_id (middle ++ rest) wf.data4_len) (
        rw (append_assoc chain tail rest) (
          rw (deserialize_chain_lem info.protocol_chain (tail ++ rest) wf.entries_len)
            (rw (next_array_lem info.sz_protocol rest 256 wf.protocol_len) refl))))
