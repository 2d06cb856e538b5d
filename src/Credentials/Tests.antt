-- ===== src/Credentials/Tests.antt =====
-- A directory without files, and that the reliable file system takes every text.
use astarte_device_sdk_cpp.Base.{refl, none, Text, arith}
use astarte_device_sdk_cpp.Persistence.{Files}
use astarte_device_sdk_cpp.Persistence.Tests.{reliable}
use astarte_device_sdk_cpp.Credentials.Storing.{Takes}

abbrev pub no_files : Files
no_files path = none

pub reliable-Takes : (path content : Text) → Takes reliable path content
reliable-Takes path content = record { opens = refl; whole = omega arith }
