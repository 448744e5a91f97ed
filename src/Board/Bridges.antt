-- ===== src/Board/Bridges.antt =====
-- The windows of the address space that VideoServer/src/hps.h gives to the parts of the processor
-- system, in the order of the file (fpga_bridge_h2f128 to uart1).
use fagprojekt.Base.{List, [], ◌∷◌, ◌++◌}
use fagprojekt.Board.{Window, window}

abbrev pub fpga_bridge_h2f128 : Window
fpga_bridge_h2f128 = window 0xc0000000 0x3c000000

abbrev pub fpga_bridge_lwh2f : Window
fpga_bridge_lwh2f = window 0xff200000 0x200000

abbrev pub emac0 : List Window
emac0 = window 4286578688 4188 ∷ []

abbrev pub emac1 : List Window
emac1 = window 4286586880 4188 ∷ []

abbrev pub emac2 : List Window
emac2 = window 4286595072 4188 ∷ []

abbrev pub sdmmc : List Window
sdmmc = window 4286611456 1024 ∷ []

abbrev pub qspi : List Window
qspi = window 4286615552 256 ∷ []

abbrev pub ecc_emac0_rx_ecc : List Window
ecc_emac0_rx_ecc = window 4287367168 1024 ∷ []

abbrev pub ecc_emac0_tx_ecc : List Window
ecc_emac0_tx_ecc = window 4287368192 1024 ∷ []

abbrev pub ecc_emac1_rx_ecc : List Window
ecc_emac1_rx_ecc = window 4287369216 1024 ∷ []

abbrev pub ecc_emac1_tx_ecc : List Window
ecc_emac1_tx_ecc = window 4287370240 1024 ∷ []

abbrev pub ecc_emac2_rx_ecc : List Window
ecc_emac2_rx_ecc = window 4287371264 1024 ∷ []

abbrev pub ecc_emac2_tx_ecc : List Window
ecc_emac2_tx_ecc = window 4287372288 1024 ∷ []

abbrev pub ecc_nand : List Window
ecc_nand = window 4287373312 1024 ∷ []

abbrev pub ecc_nandr : List Window
ecc_nandr = window 4287374336 1024 ∷ []

abbrev pub ecc_nandw : List Window
ecc_nandw = window 4287375360 1024 ∷ []

abbrev pub ecc_sdmmc : List Window
ecc_sdmmc = window 4287376384 1024 ∷ []

abbrev pub ecc_ocram_ecc : List Window
ecc_ocram_ecc = window 4287377408 1024 ∷ []

abbrev pub ecc_dmac : List Window
ecc_dmac = window 4287397888 1024 ∷ []

abbrev pub ecc_qspi : List Window
ecc_qspi = window 4287398912 1024 ∷ []

abbrev pub ecc_otg0_ecc : List Window
ecc_otg0_ecc = window 4287399936 1024 ∷ []

abbrev pub ecc_otg1_ecc_to_qspidata : List Window
ecc_otg1_ecc_to_qspidata = window 4287400960 1024 ∷ window 4288675840 1048576 ∷ []

abbrev pub usb0_globgrp : List Window
usb0_globgrp = window 4289724416 320 ∷ []

abbrev pub usb0_hostgrp : List Window
usb0_hostgrp = window 4289725440 768 ∷ []

abbrev pub usb0_devgrp : List Window
usb0_devgrp = window 4289726464 1280 ∷ []

abbrev pub usb0_pwrclkgrp_to_usb0_dwc_otg_dfifo_6 : List Window
usb0_pwrclkgrp_to_usb0_dwc_otg_dfifo_6 =
    window 4289728000 4
    ∷ window 4289728512 4096
    ∷ window 4289732608 4096
    ∷ window 4289736704 4096
    ∷ window 4289740800 4096
    ∷ window 4289744896 4096
    ∷ window 4289748992 4096
    ∷ window 4289753088 4096
    ∷ []

abbrev pub usb0_dwc_otg_dfifo_7_to_usb0_dwc_otg_dfifo_14 : List Window
usb0_dwc_otg_dfifo_7_to_usb0_dwc_otg_dfifo_14 =
    window 4289757184 4096
    ∷ window 4289761280 4096
    ∷ window 4289765376 4096
    ∷ window 4289769472 4096
    ∷ window 4289773568 4096
    ∷ window 4289777664 4096
    ∷ window 4289781760 4096
    ∷ window 4289785856 4096
    ∷ []

abbrev pub usb0_dwc_otg_dfifo_15_to_usb0_dwc_otg_dfifo_direct_access : List Window
usb0_dwc_otg_dfifo_15_to_usb0_dwc_otg_dfifo_direct_access =
    window 4289789952 4096 ∷ window 4289855488 131072 ∷ []

abbrev pub usb1_globgrp : List Window
usb1_globgrp = window 4289986560 320 ∷ []

abbrev pub usb1_hostgrp : List Window
usb1_hostgrp = window 4289987584 768 ∷ []

abbrev pub usb1_devgrp : List Window
usb1_devgrp = window 4289988608 1280 ∷ []

abbrev pub usb1_pwrclkgrp_to_usb1_dwc_otg_dfifo_6 : List Window
usb1_pwrclkgrp_to_usb1_dwc_otg_dfifo_6 =
    window 4289990144 4
    ∷ window 4289990656 4096
    ∷ window 4289994752 4096
    ∷ window 4289998848 4096
    ∷ window 4290002944 4096
    ∷ window 4290007040 4096
    ∷ window 4290011136 4096
    ∷ window 4290015232 4096
    ∷ []

abbrev pub usb1_dwc_otg_dfifo_7_to_usb1_dwc_otg_dfifo_14 : List Window
usb1_dwc_otg_dfifo_7_to_usb1_dwc_otg_dfifo_14 =
    window 4290019328 4096
    ∷ window 4290023424 4096
    ∷ window 4290027520 4096
    ∷ window 4290031616 4096
    ∷ window 4290035712 4096
    ∷ window 4290039808 4096
    ∷ window 4290043904 4096
    ∷ window 4290048000 4096
    ∷ []

abbrev pub usb1_dwc_otg_dfifo_15_to_usb1_dwc_otg_dfifo_direct_access : List Window
usb1_dwc_otg_dfifo_15_to_usb1_dwc_otg_dfifo_direct_access =
    window 4290052096 4096 ∷ window 4290117632 131072 ∷ []

abbrev pub nand_cfg : List Window
nand_cfg = window 4290248704 692 ∷ []

abbrev pub nand_param : List Window
nand_param = window 4290249472 244 ∷ []

abbrev pub nand_stat : List Window
nand_stat = window 4290249728 324 ∷ []

abbrev pub nand_ecc : List Window
nand_ecc = window 4290250320 20 ∷ []

abbrev pub nand_dma_to_nanddata : List Window
nand_dma_to_nanddata = window 4290250496 212 ∷ window 4290314240 65536 ∷ []

abbrev pub uart0 : List Window
uart0 = window 4290781184 256 ∷ []

abbrev pub uart1 : List Window
uart1 = window 4290781440 256 ∷ []

abbrev pub windows : List Window
windows =
    (fpga_bridge_h2f128 ∷ fpga_bridge_lwh2f ∷ [])
    ++ (emac0
        ++ (emac1
            ++ (emac2
                ++ (sdmmc
                    ++ (qspi
                        ++ (ecc_emac0_rx_ecc
                            ++ (ecc_emac0_tx_ecc
                                ++ (ecc_emac1_rx_ecc
                                    ++ (ecc_emac1_tx_ecc
                                        ++ (ecc_emac2_rx_ecc
                                            ++ (ecc_emac2_tx_ecc
                                                ++ (ecc_nand
                                                    ++ (ecc_nandr
                                                        ++ (ecc_nandw
                                                            ++ (ecc_sdmmc
                                                            ++ (ecc_ocram_ecc
                                                            ++ (ecc_dmac
                                                            ++ (ecc_qspi
                                                            ++ (ecc_otg0_ecc
                                                            ++ (ecc_otg1_ecc_to_qspidata
                                                            ++ (usb0_globgrp
                                                            ++ (usb0_hostgrp
                                                            ++ (usb0_devgrp
                                                            ++ (usb0_pwrclkgrp_to_usb0_dwc_otg_dfifo_6
                                                            ++ (usb0_dwc_otg_dfifo_7_to_usb0_dwc_otg_dfifo_14
                                                            ++ (usb0_dwc_otg_dfifo_15_to_usb0_dwc_otg_dfifo_direct_access
                                                            ++ (usb1_globgrp
                                                            ++ (usb1_hostgrp
                                                            ++ (usb1_devgrp
                                                            ++ (usb1_pwrclkgrp_to_usb1_dwc_otg_dfifo_6
                                                            ++ (usb1_dwc_otg_dfifo_7_to_usb1_dwc_otg_dfifo_14
                                                            ++ (usb1_dwc_otg_dfifo_15_to_usb1_dwc_otg_dfifo_direct_access
                                                            ++ (nand_cfg
                                                            ++ (nand_param
                                                            ++ (nand_stat
                                                            ++ (nand_ecc
                                                            ++ (nand_dma_to_nanddata
                                                            ++ (uart0
                                                            ++ (uart1)))))))))))))))))))))))))))))))))))))))
