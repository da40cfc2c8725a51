-- ===== src/Script/Booking/Runs.antt =====
-- A run keeps its memory booked, whatever it executes.
use Prim.Native.String.{String}
use go_apla.Script.Keeps.{Keeps}
