-- ===== src/Status.antt =====
-- The return values of src/gf_core.h: GF_OK, GF_ERROR, GF_EAGAIN and GF_ENOMEM.
pub data Status : Type 0 where
  gf_ok gf_error gf_eagain gf_enomem : Status
