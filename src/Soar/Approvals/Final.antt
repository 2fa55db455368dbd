-- ===== src/Soar/Approvals/Final.antt =====
-- soar/service.py: a cancelled execution stays cancelled.
use threat_scope_xdr.Soar.World.{World}
