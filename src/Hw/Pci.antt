-- ===== src/Hw/Pci.antt =====
-- src/hw/pci.c: the three PCI devices.
use pa6t_eth.Base.{Bool, true, false, if◌then◌else◌, is_set}
use pa6t_eth.Regs.Iob.{pasemi_vendor_id, pasemi_dev_gmac, pasemi_dev_dma, pasemi_dev_iob}
use pa6t_eth.Machine.{M, pure, ◌>>=◌, ◌>>◌, call, call_, get_base, modify_base, when}
use pa6t_eth.Machine.Calls.{find_device, free_device}

-- fail: the DMA controller and the MAC are given back.
unfoldable pub find_devices_fail : M Bool
find_devices_fail = do
  b ← get_base
  when (is_set b.dma_dev)
      (do call_ (free_device b.dma_dev); modify_base (λ b. record b { dma_dev = 0 }))
  c ← get_base
  when (is_set c.mac_dev)
      (do call_ (free_device c.mac_dev); modify_base (λ c. record c { mac_dev = 0 }))
  pure false

unfoldable pub find_iob : M Bool
find_iob = do
  d ← call (find_device pasemi_vendor_id pasemi_dev_iob)
  modify_base (λ b. record b { iob_dev = d })
  if is_set d
      then (do c ← get_base; modify_base (λ c. record c { pasdma_status = 0xfd800000 }); pure true)
      else find_devices_fail

unfoldable pub find_dma : M Bool
find_dma = do
  d ← call (find_device pasemi_vendor_id pasemi_dev_dma)
  modify_base (λ b. record b { dma_dev = d })
  if is_set d then find_iob else find_devices_fail

unfoldable pub find_devices : M Bool
find_devices = do
  d ← call (find_device pasemi_vendor_id pasemi_dev_gmac)
  modify_base (λ b. record b { mac_dev = d })
  if is_set d then find_dma else find_devices_fail
