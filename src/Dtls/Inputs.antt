-- ===== src/Dtls/Inputs.antt =====
-- The error numbers of Mbed TLS for the tests.
use space_captain.Common.{neg, refl, arith}
use space_captain.Dtls.{Mbed, IsMbed}

-- The numbers of Mbed TLS 3.
abbrev pub mbed : Mbed
mbed = record {
  want_read = neg 0x6900;
  want_write = neg 0x6880;
  ssl_timeout = neg 0x6800;
  peer_close_notify = neg 0x7880;
  cert_verify_failed = neg 0x2700;
  net_send_failed = neg 0x4E;
  net_recv_failed = neg 0x4C;
  badcert_not_trusted = 8;
}

pub mbed-IsMbed : IsMbed mbed
mbed-IsMbed = record {
  want_read_negative = refl;
  want_write_negative = refl;
  ssl_timeout_negative = refl;
  peer_close_negative = refl;
  verify_failed_negative = refl;
  send_failed_negative = refl;
  recv_failed_negative = refl;
  timeout_want_read = ground arith;
  timeout_want_write = ground arith;
  close_want_read = ground arith;
  close_want_write = ground arith;
  verify_want_read = ground arith;
  verify_want_write = ground arith;
  verify_timeout = ground arith;
  recv_want_read = ground arith;
  recv_timeout = ground arith;
  send_want_write = ground arith;
}
