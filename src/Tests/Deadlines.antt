-- ===== src/Tests/Deadlines.antt =====
-- A deadline that is set and taken back with the zero time closes the connection all the same.
use ssh_roundrobin.Prelude.{◌≡◌, ◌↔◌, refl, true, false, some, List, [], ◌∷◌, if◌then◌else◌}
use ssh_roundrobin.CommandConn
use ssh_roundrobin.CommandConn.{CommandConn}
use ssh_roundrobin.CommandConn.Deadline
use ssh_roundrobin.CommandConn.Deadline.{Event, sets, sets_read, reaches, happen_each}
use ssh_roundrobin.CommandConn.Deadline.Expiry.{Ends, ended_once, happen_each-Ends}
use ssh_roundrobin.Tests.Disk.{disk_env}
use ssh_roundrobin.Tests.Settings.{disk}

abbrev fresh : CommandConn
fresh = record { command = 1; process = some 1; closed = false }

abbrev events : List Event
events = sets 50 ∷ sets 0 ∷ sets_read 90 ∷ reaches 60 ∷ []

happen_each-Ends_example :
    let c = happen_each disk_env events (record { conn = fresh; timers = []; world = disk }) in
    ((c.conn.closed ≡ true) ↔ Ends events)
    × (c.world ≡ (if c.conn.closed then ended_once disk_env fresh disk else disk))
happen_each-Ends_example = happen_each-Ends disk_env fresh disk refl events

taken_back_run :
    (happen_each disk_env events (record { conn = fresh; timers = []; world = disk })).conn.closed
    ≡ true
unfolding happen_each Deadline.happen Deadline.set_deadline Deadline.set_read_deadline Deadline.fire
    Deadline.close_timed CommandConn.close
taken_back_run = refl
