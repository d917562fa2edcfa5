-- ===== src/Host/Role.antt =====
-- The enumerations of hostinfo.py and host_availability.py.
use aws_advanced_python_wrap.Prelude.{Bool, true, false, not}

pub data HostRole : Type 0 where
  unknown reader writer : HostRole

pub HostRole-discrete : Discrete HostRole
HostRole-discrete = hlevel

pub data HostAvailability : Type 0 where
  available unavailable : HostAvailability

abbrev pub is_reader : HostRole → Bool
is_reader reader = true
is_reader _ = false

abbrev pub is_writer : HostRole → Bool
is_writer writer = true
is_writer _ = false

abbrev pub is_available : HostAvailability → Bool
is_available available = true
is_available unavailable = false

abbrev pub role_eq : HostRole → HostRole → Bool
role_eq unknown unknown = true
role_eq reader reader = true
role_eq writer writer = true
role_eq _ _ = false

abbrev pub availability_eq : HostAvailability → HostAvailability → Bool
availability_eq available a = is_available a
availability_eq unavailable a = not (is_available a)
