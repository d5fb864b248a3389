-- ===== src/Block/Return.antt =====
-- From a withdrawal in one block to the return of its stake in a later one.
use theta_rosetta_rpc_adapto.Wire.{Transaction}
use theta_rosetta_rpc_adapto.Store.Interface.{Store}
