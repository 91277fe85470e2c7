-- ===== src/Libnet/Start.antt =====
-- evnet_init: the state of all channels is valid at the start.
use evnet.Libnet.{Libnet}
