-- ===== src/Proxy/Request.antt =====
-- proxy/json-replacement.hpp: `request`, in the network's order, and how `request_parser` reads it. In
-- memory `type` and `operation` are the first two bytes, two bytes of padding follow, then `position`
-- and `size`.
pub mod RequestBytes
use slsfs.Bytes.{hton, load, ntoh, store, Bytes}
use slsfs.Prelude.{
  ◌++◌, drop, take, ◌>>=◌, if◌then◌else◌, refl, suc, zero, inr, inl, false, true, none, some, ◌∷◌,
  [], ℕ,
}

pub record FileRequest : Type 0 where
  pub type : ℕ
  pub operation : ℕ
  pub position : ℕ
  pub size : ℕ

-- `request::to_network_format` and the `memcpy` of the struct; the padding holds anything.
unfoldable pub request_bytes : Bytes → FileRequest → Bytes
request_bytes padding r =
    store 1 (hton 1 r.type)
    ++ (store 1 (hton 1 r.operation)
        ++ (padding ++ (store 4 (hton 4 r.position) ++ store 4 (hton 4 r.size))))

-- `memcpy` of `n` bytes from an offset.
unfoldable pub bytes_at : ℕ → ℕ → Bytes → Bytes
bytes_at offset n buf = take n (drop offset buf)

-- `request_parser::copy_request`
unfoldable pub copy_request : Bytes → FileRequest
copy_request buf = record {
  type = ntoh 1 (load (bytes_at 0 1 buf));
  operation = ntoh 1 (load (bytes_at 1 1 buf));
  position = ntoh 4 (load (bytes_at 4 4 buf));
  size = ntoh 4 (load (bytes_at 8 4 buf));
}

-- `request_parser::data`
unfoldable pub request_data : Bytes → Bytes
request_data buf = drop 12 buf
