-- ===== src/Timeline/Store/Grab.antt =====
-- What GrabTimeline returns.
use agent_rd.Common.{string_eq}
use agent_rd.Domain.Event.{Event}
use agent_rd.Timeline.Store.{Store}
